-- ===== src/Signing/Headers/Loop.antt =====
-- The loop over the sorted headers: it writes the lines and the names of their groups, which the
-- reserved capacity holds.
use aws_c_auth.Common.{
  ℕ, true, false, List, [], ◌∷◌, ◌++◌, append_assoc, append-nil, map, none, some, Bytes, ◌≡◌, refl,
  sym, ap, subst, ◌∙◌, Result, returns, arith, Bool-cases, inl, inr,
}
use aws_c_auth.External.{ByteBuf, Library, Documented, joined}
use aws_c_auth.Signing.Headers.{StableHeader, append_canonical_headers, is_new_name}
use aws_c_auth.Signing.Buffers.{Fits, Fits-rest, Fits-first}
use aws_c_auth.Signing.Headers.Lines.{led, joined-led, value_lines}
use aws_c_auth.Signing.Headers.Groups.{
  lowered, same_name, groups, join_group, join_group-first, all_lines, group_text, group_name,
  block_text, signed_text, rest_block, rest_signed,
}
use aws_c_auth.Signing.Headers.Pairs.{
  PairWrites, PairWrites-bind, is_new_name-same, new_header-text, same_header-text,
}

led-append : (sep : ℕ) (a b : List Bytes) → led sep (a ++ b) ≡ led sep a ++ led sep b
led-append sep [] b = refl
led-append sep (p ∷ a) b =
    ap (λ l. sep ∷ l)
      (ap (λ l. p ++ l) (led-append sep a b) ∙ sym (append_assoc p (led sep a) (led sep b)))

retext-pair :
    (b s : ByteBuf) (m : Result (ByteBuf × ByteBuf)) {t t' n n' : Bytes}
    → t ≡ t'
    → n ≡ n'
    → (Fits b t → Fits s n → PairWrites (b, s) m t n)
    → Fits b t'
    → Fits s n'
    → PairWrites (b, s) m t' n'
retext-pair b s m {t} {t'} {n} {n'} e e' h =
    subst (λ t. Fits b t → Fits s n' → PairWrites (b, s) m t n') e
      (subst (λ n. Fits b t → Fits s n → PairWrites (b, s) m t n) e' h)

module _ (c : Library) (d : Documented c) where
  -- where the next header has the same name
  pub rest_block-same :
      (w v : StableHeader) (ws : List StableHeader)
      → same_name c w.header.name v.header.name ≡ true
      → (rest_block c (groups c (w ∷ v ∷ ws))
          ≡ led b',' (value_lines c v.header.value) ++ rest_block c (groups c (v ∷ ws)))
        × (rest_signed c (groups c (w ∷ v ∷ ws)) ≡ rest_signed c (groups c (v ∷ ws)))
  unfolding groups join_group
  rest_block-same w v ws same =
      let (others, gs, e) = join_group-first c v (groups c ws) in
      rw e (
        rw same (
          ap (λ l. l ++ led b'\n' (map (group_text c) gs))
                (led-append b',' (value_lines c v.header.value) (all_lines c others))
              ∙ append_assoc (led b',' (value_lines c v.header.value))
                  (led b',' (all_lines c others)) (led b'\n' (map (group_text c) gs)),
          refl,
        ))

  pub text-first :
      (w : StableHeader) (ws : List StableHeader)
      → (block_text c (w ∷ ws)
          ≡ ((lowered c w.header.name ++ b':' ∷ []) ++ joined b',' (value_lines c w.header.value))
            ++ rest_block c (groups c (w ∷ ws)))
        × (signed_text c (w ∷ ws) ≡ lowered c w.header.name ++ rest_signed c (groups c (w ∷ ws)))
  unfolding groups
  text-first w ws =
      let (others, gs, e) = join_group-first c w (groups c ws) in
      rw e (
        joined-led b'\n' _ (map (group_text c) gs) ∙ simp append_assoc,
        joined-led b';' (lowered c w.header.name) (map (group_name c) gs),
      )

  pub rest_block-new :
      (w v : StableHeader) (ws : List StableHeader)
      → same_name c w.header.name v.header.name ≡ false
      → (rest_block c (groups c (w ∷ v ∷ ws))
          ≡ ((b'\n' ∷ (lowered c v.header.name ++ b':' ∷ []))
              ++ joined b',' (value_lines c v.header.value))
            ++ rest_block c (groups c (v ∷ ws)))
        × (rest_signed c (groups c (w ∷ v ∷ ws))
            ≡ (b';' ∷ lowered c v.header.name) ++ rest_signed c (groups c (v ∷ ws)))
  unfolding groups join_group
  rest_block-new w v ws new =
      let (others, gs, e) = join_group-first c v (groups c ws) in
      rw e (rw new (simp append_assoc, refl))

  pub rest-alone :
      (w : StableHeader)
      → (rest_block c (groups c (w ∷ [])) ≡ []) × (rest_signed c (groups c (w ∷ [])) ≡ [])
  unfolding groups join_group
  rest-alone w = (refl, refl)

  -- the loop behind a first header
  behind-text :
      (ws : List StableHeader) (w : StableHeader) (b s : ByteBuf)
      → Fits b (rest_block c (groups c (w ∷ ws)))
      → Fits s (rest_signed c (groups c (w ∷ ws)))
      → PairWrites
          (b, s)
          (append_canonical_headers c ws (some w.header.name) (b, s))
          (rest_block c (groups c (w ∷ ws)))
          (rest_signed c (groups c (w ∷ ws)))
  unfolding append_canonical_headers
  behind-text [] w b s =
      retext-pair b s _ (sym (rest-alone w).0) (sym (rest-alone w).1) (λ fits fits'.
        returns _ (b, s)
          ((sym (append-nil b.bytes), omega arith), (sym (append-nil s.bytes), omega arith)))
  behind-text (v ∷ ws) w b s =
      let loop = behind-text ws v in
      let rest = rest_block c (groups c (v ∷ ws)) in
      let rest' = rest_signed c (groups c (v ∷ ws)) in
      let value = value_lines c v.header.value in
      let kind = is_new_name-same c d w.header.name v.header.name in
      elim (Bool-cases (same_name c w.header.name v.header.name)) [
        | inl e ↦
            let (text, names) = rest_block-same w v ws e in
            retext-pair b s _ (sym text) (sym names) (λ fits fits'.
              PairWrites-bind b s _ _ (led b',' value) rest [] rest'
                (same_header-text c d v.header (some w.header.name) b s (rw (kind, e) refl)
                  (Fits-first b (led b',' value) rest fits))
                (λ r q e k e' k'.
                  loop r q (Fits-rest b r (led b',' value) rest fits e k)
                    (Fits-rest s q [] rest' fits' e' k')))
        | inr e ↦
            let (text, names) = rest_block-new w v ws e in
            let head : Bytes =
              (b'\n' ∷ (lowered c v.header.name ++ b':' ∷ [])) ++ joined b',' value in
            let head' : Bytes = b';' ∷ lowered c v.header.name in
            retext-pair b s _ (sym text) (sym names) (λ fits fits'.
              PairWrites-bind b s _ _ head rest head' rest'
                (new_header-text c d v.header (some w.header.name) b s (rw (kind, e) refl)
                  (Fits-first b head rest fits) (Fits-first s head' rest' fits'))
                (λ r q e k e' k'.
                  loop r q (Fits-rest b r head rest fits e k)
                    (Fits-rest s q head' rest' fits' e' k')))
      ]

  pub append_canonical_headers-text :
      (ws : List StableHeader) (b s : ByteBuf)
      → Fits b (block_text c ws)
      → Fits s (signed_text c ws)
      → PairWrites
          (b, s)
          (append_canonical_headers c ws none (b, s))
          (block_text c ws)
          (signed_text c ws)
  unfolding append_canonical_headers groups is_new_name
  append_canonical_headers-text [] b s = λ fits fits'.
      returns _ (b, s)
        ((sym (append-nil b.bytes), omega arith), (sym (append-nil s.bytes), omega arith))
  append_canonical_headers-text (w ∷ ws) b s =
      let head : Bytes =
        (lowered c w.header.name ++ b':' ∷ []) ++ joined b',' (value_lines c w.header.value) in
      let head' = lowered c w.header.name in
      let rest = rest_block c (groups c (w ∷ ws)) in
      let rest' = rest_signed c (groups c (w ∷ ws)) in
      let (text, names) = text-first w ws in
      retext-pair b s _ (sym text) (sym names) (λ fits fits'.
        PairWrites-bind b s _ _ head rest head' rest'
          (new_header-text c d w.header none b s refl (Fits-first b head rest fits)
            (Fits-first s head' rest' fits'))
          (λ r q e k e' k'.
            behind-text ws w r q (Fits-rest b r head rest fits e k)
              (Fits-rest s q head' rest' fits' e' k')))
