-- ===== src/Xml/Traverse/Fuel.antt =====
-- What the traversal of a document needs to come to an end: each round has less of the document in
-- front of it, and a callback is called at a depth within the limit.
use aws_c_auth.Common.{
  ℕ, zero, suc, ◌+◌, ◌<◌, ◌≤◌, true, false, [], ◌∷◌, Option, none, some, Bytes, length, ◌==◌, ◌≡◌,
  refl, ap, sym, ◌∙◌, arith, Bool-cases, Option-cases, inl, inr,
}
use aws_c_auth.Xml.{
  Parser, Node, advance, Search, closed, unclosed, body_of, find_closing, closing_cmp, too_long,
  advance_to_closing_tag,
}
use aws_c_auth.Xml.Ends.{Finds, length-advance, shorter, skip_opens-ends}
use aws_c_auth.Xml.Traverse.{
  Run, ran, out_of_bounds, out_of_fuel, memchr, Tag, no_tag, tag, next_tag, skipped, tag_of,
}

found_here : (x y : ℕ) (s : Bytes) → (y == x) ≡ true → memchr x (y ∷ s) ≡ some (y ∷ s)
unfolding memchr
found_here x y s h = rw h refl

found_behind : (x y : ℕ) (s : Bytes) → (y == x) ≡ false → memchr x (y ∷ s) ≡ memchr x s
unfolding memchr
found_behind x y s h = rw h refl

pub length-memchr :
    (x : ℕ) (s f : Bytes) → memchr x s ≡ some f → (1 ≤ length f) × (length f ≤ length s)
unfolding memchr
length-memchr x [] f e = cc e
length-memchr x (y ∷ s) f e = elim (Bool-cases (y == x)) [
  | inl h ↦
      let whole : y ∷ s ≡ f = cc (found_here x y s h, e) in
      (omega (arith, ap length whole), omega (arith, ap length whole))
  | inr h ↦
      let (some_left, less) = length-memchr x s f (sym (found_behind x y s h) ∙ e) in
      (some_left, omega (arith, less))
]

-- The document of a tag is shorter than the one it is found in.
unfoldable pub TagIn : Bytes → Tag → Type 0
TagIn doc no_tag = Unit
TagIn doc (tag closes decl rest) = length rest < length doc

tag_of-TagIn :
    (doc : Bytes) (start location : Option Bytes)
    → ((f : Bytes) → location ≡ some f → (1 ≤ length f) × (length f ≤ length doc))
    → TagIn doc (tag_of start location)
unfolding TagIn
tag_of-TagIn doc none location h = tt
tag_of-TagIn doc (some start) none h = tt
tag_of-TagIn doc (some start) (some location) h =
    let (some_left, less) = h location refl in
    omega (arith, some_left, less, length-advance 1 location)

pub next_tag-TagIn : (doc : Bytes) → TagIn doc (next_tag doc)
unfolding next_tag
next_tag-TagIn doc =
    tag_of-TagIn doc (memchr b'<' doc) (memchr b'>' doc) (λ f e. length-memchr b'>' doc f e)

-- How a run from a parser ends: with no more of the document, and at a depth from the floor to the limit.
abbrev pub Ends : {D : Type 0} → ℕ → Parser → Run D → Type 0
Ends floor p (ran q user_data succeeds processed) =
    (length q.doc ≤ length p.doc)
    × (q.max_depth ≡ p.max_depth)
    × (floor ≤ q.depth)
    × (q.depth ≤ q.max_depth)
Ends floor p out_of_bounds = Unit
Ends floor p out_of_fuel = ⊥

-- A callback that ends from every parser whose depth leaves it enough fuel.
abbrev pub Callback : {D : Type 0} → ℕ → (Parser → Node → D → Run D) → Type 0
Callback {D} fuel callback =
    (p : Parser) (node : Node) (user_data : D)
    → p.depth ≤ p.max_depth
    → p.max_depth < fuel + p.depth
    → Ends p.depth p (callback p node user_data)

-- The search ends with no more of the document than this.
unfoldable pub SearchIn : ℕ → Search → Type 0
SearchIn n (closed rest close) = length rest ≤ n
SearchIn n (unclosed rest) = length rest ≤ n
SearchIn n Search.out_of_fuel = Unit

SearchIn-mono : (n m : ℕ) → n ≤ m → (r : Search) → SearchIn n r → SearchIn m r
unfolding SearchIn
SearchIn-mono n m le (closed rest close) h = omega (arith, h, le)
SearchIn-mono n m le (unclosed rest) h = omega (arith, h, le)
SearchIn-mono n m le Search.out_of_fuel h = tt

module _ (find_exact : Bytes → Bytes → Option Bytes) (finds : Finds find_exact) where
  find_closing-In :
      (fuel : ℕ) (name doc : Bytes) (depth : ℕ)
      → SearchIn (length doc) (find_closing find_exact fuel name doc depth)
  unfolding find_closing SearchIn
  find_closing-In zero name doc depth = tt
  find_closing-In (suc fuel) name doc depth =
      elim (Option-cases (find_exact doc (closing_cmp name))) [
        | inl e ↦ rw (find_closing, e) (omega arith)
        | inr (close, e) ↦
            let behind = advance (length (closing_cmp name)) close in
            let less : length behind ≤ length doc = omega (
              arith,
              shorter find_exact finds doc (closing_cmp name) close e,
              length-advance (length (closing_cmp name)) close,
            ) in
            let (d, skipped) =
              skip_opens-ends find_exact finds (length doc + 1) name doc close depth
                (omega arith) in
            elim (Bool-cases (d == 0)) [
              | inl f ↦ rw (find_closing, e, skipped, f) less
              | inr f ↦
                  rw (find_closing, e, skipped, f)
                    (SearchIn-mono _ _ less (find_closing find_exact fuel name behind d)
                      (find_closing-In fuel name behind d))
            ]
      ]

  -- What s_advance_to_closing_tag does to the parser.
  unfoldable pub Moved : Parser → Parser → Type 0
  Moved p q = (length q.doc ≤ length p.doc) × (q.max_depth ≡ p.max_depth) × (q.depth ≡ p.depth)

  body_of-Moved :
      (p : Parser) (node : Node) (r : Search)
      → SearchIn (length p.doc) r
      → Moved p (body_of find_exact r p node).0
  unfolding Moved SearchIn
  body_of-Moved p node (closed doc close) h = (h, refl, refl)
  body_of-Moved p node (unclosed doc) h = (h, refl, refl)
  body_of-Moved p node Search.out_of_fuel h = (omega arith, refl, refl)

  pub advance-Moved :
      (p : Parser) (node : Node) → Moved p (advance_to_closing_tag find_exact p node).0
  unfolding advance_to_closing_tag Moved
  advance-Moved p node = elim (Bool-cases (too_long find_exact node)) [
    | inl e ↦ rw e (omega arith, refl, refl)
    | inr e ↦ rw e (body_of-Moved p node _ (find_closing-In (length p.doc + 1) node.name p.doc 1))
  ]
