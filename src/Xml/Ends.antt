-- ===== src/Xml/Ends.antt =====
-- The search for the end of a node comes to an end.
use aws_c_auth.Common.{
  ℕ, zero, suc, ◌+◌, ◌-◌, ◌<◌, ◌≤◌, [], ◌∷◌, ◌++◌, Option, none, some, Bytes, length, length-append,
  ltb, ◌==◌, ◌≡◌, ◌≢◌, refl, ap, arith, Bool-cases, Option-cases, inl, inr,
}
use aws_c_auth.Xml.{
  Parser, Node, advance, out_of_fuel, open_cmp, closing_cmp, skip_opens, find_closing,
}

-- What aws_byte_cursor_find_exact documents: what it finds begins with what is looked for, and is the
-- end of the input; it finds what is there, and no later occurrence than the first.
pub record Finds (find_exact : Bytes → Bytes → Option Bytes) : Type 0 where
  pub found :
      (s p f : Bytes)
      → find_exact s p ≡ some f
      → (before rest : Bytes) × (s ≡ before ++ f) × (f ≡ p ++ rest)
  pub finds : (before p rest : Bytes) → find_exact (before ++ (p ++ rest)) p ≢ none
  pub nearest :
      (before p rest f : Bytes)
      → find_exact (before ++ (p ++ rest)) p ≡ some f
      → length (p ++ rest) ≤ length f

pub length-advance : (n : ℕ) (s : Bytes) → length (advance n s) ≡ length s - n
unfolding advance
length-advance zero s = omega arith
length-advance (suc n) [] = omega arith
length-advance (suc n) (x ∷ s) = omega (arith, length-advance n s)

module _ (find_exact : Bytes → Bytes → Option Bytes) (finds : Finds find_exact) where
  pub shorter :
      (s p f : Bytes) → find_exact s p ≡ some f → (length f ≤ length s) × (length p ≤ length f)
  shorter s p f e =
      let (before, rest, is, begins) = finds.found s p f e in
      (
        omega (arith, ap length is, length-append before f),
        omega (arith, ap length begins, length-append p rest),
      )

  -- What is behind the opening tags is no longer than the closing tag's rest.
  pub skip_opens-ends :
      (fuel : ℕ) (name doc close : Bytes) (depth : ℕ)
      → length doc < fuel
      → (d : ℕ) × (skip_opens find_exact fuel name doc close depth
          ≡ some (advance (length (closing_cmp name)) close, d))
  unfolding skip_opens advance
  skip_opens-ends zero name doc close depth h = absurd (omega (arith, h))
  skip_opens-ends (suc fuel) name doc close depth h =
      elim (Option-cases (find_exact doc (open_cmp name))) [
        | inl e ↦ (depth - 1, rw (skip_opens, e) refl)
        | inr (opened, e) ↦ elim (Bool-cases (ltb (length close) (length opened))) [
          | inr f ↦ (depth - 1, rw (skip_opens, e, f) refl)
          | inl f ↦
              let short = shorter doc (open_cmp name) opened e in
              let (d, rest) =
                skip_opens-ends fuel name (advance 1 opened) close (depth + 1)
                  (omega (arith, h, short, length-advance 1 opened)) in
              (d, rw (skip_opens, e, f) rest)
        ]
      ]

  pub find_closing-ends :
      (fuel : ℕ) (name doc : Bytes) (depth : ℕ)
      → length doc < fuel
      → find_closing find_exact fuel name doc depth ≢ out_of_fuel
  unfolding find_closing
  find_closing-ends zero name doc depth h = absurd (omega (arith, h))
  find_closing-ends (suc fuel) name doc depth h =
      elim (Option-cases (find_exact doc (closing_cmp name))) [
        | inl e ↦ rw (find_closing, e) (λ q. cc q)
        | inr (close, e) ↦
            let short = shorter doc (closing_cmp name) close e in
            let (d, skipped) =
              skip_opens-ends (length doc + 1) name doc close depth (omega arith) in
            let behind = advance (length (closing_cmp name)) close in
            elim (Bool-cases (d == 0)) [
              | inl f ↦ rw (find_closing, e, skipped, f) (λ q. cc q)
              | inr f ↦
                  rw (find_closing, e, skipped, f)
                    (find_closing-ends fuel name behind d
                      (omega (arith, h, short, length-advance (length (closing_cmp name)) close)))
            ]
      ]

  -- The search for the end of a node ends, for every document and name, whether or not there is a
  -- closing tag: the length of the document is fuel enough.
  pub advance_to_closing_tag-ends :
      (parser : Parser) (node : Node)
      → find_closing find_exact (length parser.doc + 1) node.name parser.doc 1 ≢ out_of_fuel
  advance_to_closing_tag-ends parser node =
      find_closing-ends (length parser.doc + 1) node.name parser.doc 1 (omega arith)
