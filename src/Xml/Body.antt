-- ===== src/Xml/Body.antt =====
-- The body of a node without children.
use native.Mathlib.Numerals.{add-one}
use aws_c_auth.Common.{
  ℕ, suc, ◌+◌, ◌-◌, ◌≤◌, Bool, true, false, not, all, [], ◌∷◌, ◌++◌, Option, some, Bytes, length,
  length-append, ltb, ◌==◌, ◌≡◌, refl, sym, ap, ◌∙◌, arith, Option-cases, inl, inr,
}
use aws_c_auth.Xml.{
  Parser, Node, advance, first_bytes, closed, open_cmp, closing_cmp, skip_opens, find_closing,
  max_name_len, too_long, advance_to_closing_tag, node_as_body,
}
use aws_c_auth.Xml.Ends.{Finds}

advance-append : (a s : Bytes) → advance (length a) (a ++ s) ≡ s
unfolding advance
advance-append [] s = refl
advance-append (x ∷ a) s = advance-append a s

first_bytes-append : (a s : Bytes) → first_bytes (length a) (a ++ s) ≡ a
unfolding first_bytes
first_bytes-append [] s = refl
first_bytes-append (x ∷ a) s = ap (λ l. x ∷ l) (first_bytes-append a s)

abbrev pub no_tag : Bytes → Bool
no_tag = all (λ x. not (x == b'<'))

-- A tag is not found within text that has none.
not_before :
    (body close before tag : Bytes)
    → no_tag body ≡ true
    → body ++ close ≡ before ++ b'<' ∷ tag
    → length body ≤ length before
unfolding all
not_before [] close before tag h e = omega arith
not_before (x ∷ body) close [] tag h e = let is_tag : x ≡ b'<' = cc e in ground (arith, h, is_tag)
not_before (x ∷ body) close (y ∷ before) tag h e =
    let rest_h : no_tag body ≡ true = ground (arith, h) in
    omega (arith, not_before body close before tag rest_h (cc e))

same_rest : (a b s t : Bytes) → length a ≡ length b → a ++ s ≡ b ++ t → s ≡ t
same_rest [] [] s t l e = e
same_rest [] (y ∷ b) s t l e = absurd (omega (arith, l))
same_rest (x ∷ a) [] s t l e = absurd (omega (arith, l))
same_rest (x ∷ a) (y ∷ b) s t l e = same_rest a b s t (omega (arith, l)) (cc e)

module _ (find_exact : Bytes → Bytes → Option Bytes) (finds : Finds find_exact) where
  found_close :
      (name body rest : Bytes)
      → no_tag body ≡ true
      → find_exact (body ++ (closing_cmp name ++ rest)) (closing_cmp name)
        ≡ some (closing_cmp name ++ rest)
  found_close name body rest h =
      elim (Option-cases (find_exact (body ++ (closing_cmp name ++ rest)) (closing_cmp name))) [
        | inl e ↦ absurd (finds.finds body (closing_cmp name) rest e)
        | inr (f, e) ↦
            let whole : Bytes = closing_cmp name ++ rest in
            let (before, r, is, begins) = finds.found (body ++ whole) (closing_cmp name) f e in
            let behind =
              not_before body whole before (b'/' ∷ (name ++ b'>' ∷ []) ++ r) h
                (is ∙ ap (λ l. before ++ l) begins) in
            let near = finds.nearest body (closing_cmp name) rest f e in
            let same =
              same_rest body before whole f
                (omega (
                  arith,
                  behind,
                  near,
                  ap length is,
                  length-append body whole,
                  length-append before f,
                ))
                is in
            e ∙ ap (λ l. some l) (sym same)
      ]

  -- No opening tag is found in front of the closing one.
  skip_opens-none :
      (fuel depth : ℕ) (name body rest : Bytes)
      → no_tag body ≡ true
      → skip_opens find_exact
          (suc fuel)
          name
          (body ++ (closing_cmp name ++ rest))
          (closing_cmp name ++ rest)
          depth
        ≡ some (rest, depth - 1)
  unfolding skip_opens
  skip_opens-none fuel depth name body rest h =
      let whole : Bytes = closing_cmp name ++ rest in
      let at_end : Path (Option (Bytes × ℕ))
          (some (advance (length (closing_cmp name)) whole, depth - 1)) (some (rest, depth - 1)) =
        ap (λ l. some (l, depth - 1)) (advance-append (closing_cmp name) rest) in
      elim (Option-cases (find_exact (body ++ whole) (open_cmp name))) [
        | inl e ↦ rw (skip_opens, e) at_end
        | inr (opened, e) ↦
            let (before, r, is, begins) = finds.found (body ++ whole) (open_cmp name) opened e in
            let behind =
              not_before body whole before (name ++ r) h (is ∙ ap (λ l. before ++ l) begins) in
            let later : ltb (length whole) (length opened) ≡ false = ground (
              arith,
              behind,
              ap length is,
              length-append body whole,
              length-append before opened,
            ) in
            rw (skip_opens, e, later) at_end
      ]

  find_closing-leaf :
      (fuel : ℕ) (name body rest : Bytes)
      → no_tag body ≡ true
      → find_closing find_exact (suc fuel) name (body ++ (closing_cmp name ++ rest)) 1
        ≡ closed rest (closing_cmp name ++ rest)
  unfolding find_closing
  find_closing-leaf fuel name body rest h =
      rw (find_closing, found_close name body rest h, add-one, skip_opens-none _ 1 name body rest h)
        refl

  -- Where the document goes on with text that has no tag and then with the node's closing tag, taking the
  -- node as a body gives just that text, and the parser stands behind the closing tag; the name has at
  -- most 256 bytes.
  pub node_as_body-text :
      (parser : Parser) (node : Node) (body rest : Bytes)
      → no_tag body ≡ true
      → length node.name ≤ max_name_len
      → (let doc = body ++ (closing_cmp node.name ++ rest) in
          (node_as_body find_exact
            (record parser { doc = doc })
            (record node { doc_at_body = doc })).0
          ≡ (record parser { doc = rest }, some body))
  unfolding node_as_body advance_to_closing_tag
  node_as_body-text parser node body rest h fits =
      let whole : Bytes = closing_cmp node.name ++ rest in
      let doc : Bytes = body ++ whole in
      let closing : length (closing_cmp node.name) ≡ length node.name + 3 =
        omega (arith, length-append node.name (b'>' ∷ [])) in
      let all_of = length-append body whole in
      let part = length-append (closing_cmp node.name) rest in
      let short : too_long find_exact (record node { doc_at_body = doc }) ≡ false =
        ground (arith, closing, all_of, part, fits) in
      let size : length doc - length whole ≡ length body = omega (arith, all_of) in
      rw
        (
          short,
          add-one,
          find_closing-leaf _ node.name body rest h,
          size,
          first_bytes-append body whole,
        )
        refl
