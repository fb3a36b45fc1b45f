-- ===== src/Signing/Headers/Size.antt =====
-- The text of the header block takes no more than what is reserved for it.
use aws_c_auth.Common.{
  suc, ◌-◌, ◌==◌, ◌≤◌, List, [], ◌∷◌, ◌++◌, Bytes, length, length-append, length-map, arith,
  Bool-cases, inl, inr,
}
use aws_c_auth.External.{Library, Documented, joined}
use aws_c_auth.Signing.Headers.{StableHeader, is_space}
use aws_c_auth.Signing.Headers.Lines.{led, joined-led, value_lines}
use aws_c_auth.Signing.Headers.Bounds.{lines_cost}
use aws_c_auth.Signing.Headers.Reserve.{total_cost}
use aws_c_auth.Signing.Headers.Capacity.{split_cost}
use aws_c_auth.Signing.Headers.Groups.{lowered, same_name, groups, block_text, rest_block}
use aws_c_auth.Signing.Headers.Squash.{squashed, length-squashed}
use aws_c_auth.Signing.Headers.Lines.{lines_of}
use aws_c_auth.Signing.Headers.Loop.{rest_block-same, rest_block-new, rest-alone, text-first}

length-joined : (lines : List Bytes) → length (joined b',' lines) ≤ length (led b',' lines) - 1
length-joined [] = omega arith
length-joined (p ∷ lines) = rw (joined-led b',' p lines) (omega arith)

module _ (c : Library) (d : Documented c) where
  length-led : (lines : List Bytes) → length (led b',' (lines_of c lines)) ≤ lines_cost lines
  length-led [] = omega arith
  length-led (line ∷ lines) =
      let trimmed = c.trim_pred line is_space in
      let rest = lines_of c lines in
      let less = length-led lines in
      elim (Bool-cases (length trimmed == 0)) [
        | inl e ↦ rw e (omega (arith, less))
        | inr e ↦ rw e (
            omega (
              arith,
              less,
              length-squashed trimmed,
              d.trim_length line is_space,
              length-append (squashed trimmed) (led b',' rest),
            ))
      ]

  length-value :
      (value : Bytes)
      → (length (led b',' (value_lines c value)) ≤ suc (length value))
        × (length (joined b',' (value_lines c value)) ≤ length value)
  length-value value =
      let less = length-led (c.split_on_char value b'\n') in
      let cost = split_cost c d value b'\n' in
      (omega (arith, less, cost), omega (arith, less, cost, length-joined (value_lines c value)))

  length-rest :
      (ws : List StableHeader) (w : StableHeader)
      → length (rest_block c (groups c (w ∷ ws))) ≤ total_cost ws
  length-rest [] w = rw (rest-alone c d w).0 (omega arith)
  length-rest (v ∷ ws) w =
      let less = length-rest ws v in
      let (led_less, joined_less) = length-value v.header.value in
      let rest = rest_block c (groups c (v ∷ ws)) in
      let lines = value_lines c v.header.value in
      let name : Bytes = b'\n' ∷ (lowered c v.header.name ++ b':' ∷ []) in
      elim (Bool-cases (same_name c w.header.name v.header.name)) [
        | inl e ↦
            rw (rest_block-same c d w v ws e).0
              (omega (arith, less, led_less, length-append (led b',' lines) rest))
        | inr e ↦ rw (rest_block-new c d w v ws e).0 (
            omega (
              arith,
              less,
              joined_less,
              length-append (name ++ joined b',' lines) rest,
              length-append name (joined b',' lines),
              length-append (lowered c v.header.name) (b':' ∷ []),
              length-map c.to_lower v.header.name,
            ))
      ]

  -- The header block takes no more than the names, the values and two bytes for each header.
  pub length-block_text : (ws : List StableHeader) → length (block_text c ws) ≤ total_cost ws
  unfolding groups
  length-block_text [] = omega arith
  length-block_text (w ∷ ws) =
      let less = length-rest ws w in
      let (led_less, joined_less) = length-value w.header.value in
      let rest = rest_block c (groups c (w ∷ ws)) in
      let lines = value_lines c w.header.value in
      let name : Bytes = lowered c w.header.name ++ b':' ∷ [] in
      rw (text-first c d w ws).0 (
        omega (
          arith,
          less,
          joined_less,
          length-append (name ++ joined b',' lines) rest,
          length-append name (joined b',' lines),
          length-append (lowered c w.header.name) (b':' ∷ []),
          length-map c.to_lower w.header.name,
        ))
