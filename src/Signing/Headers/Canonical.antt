-- ===== src/Signing/Headers/Canonical.antt =====
-- s_build_canonical_headers: the text of the header block and of the list of signed headers.
use Prim.Native.Nat.{max}
use mathlib.Core.List.{Perm}
use aws_c_auth.Common.{
  ◌+◌, ◌*◌, ◌≤◌, List, [], ◌∷◌, ◌++◌, append_assoc, Ordering, length, bytes_eq_iff, ◌≡◌, ◌≢◌, refl,
  sym, ap, subst, ◌∙◌, ◌⊎◌, ok, Returns, returns, arith, Bool-cases, inl, inr,
}
use aws_c_auth.Common.Sort.{qsort}
use aws_c_auth.Common.Sort.Laws.{Chain, qsort-Chain, Perm-qsort}
use aws_c_auth.External.{ByteBuf, Library, Documented}
use aws_c_auth.Signing.Buffers.{append_character_lem}
use aws_c_auth.Signing.State.{State, Header, http_headers_list}
use aws_c_auth.Signing.Headers.{
  StableHeader, canonical_header_comparator, collect_headers, validate_signable_header_list,
  build_canonical_stable_header_list, build_canonical_headers,
}
use aws_c_auth.Signing.Buffers.{Fits}
use aws_c_auth.Signing.Headers.Groups.{
  Group, lowered, same_name, groups, join_group, join_group-first, block_text, signed_text,
}
use aws_c_auth.Signing.Headers.Reserve.{
  total_cost, total_cost-qsort, total_cost-weight, weight-collect,
}
use aws_c_auth.Signing.Headers.Loop.{append_canonical_headers-text}
use aws_c_auth.Signing.Headers.Size.{length-block_text}

module _ (c : Library) (d : Documented c) where
  -- The one name comes before the other, or it is the same, and the one header was met before the other.
  abbrev pub Precedes : StableHeader → StableHeader → Type 0
  Precedes v w =
      (c.compare_lexical (lowered c v.header.name) (lowered c w.header.name) ≡ Ordering.lt)
      ⊎ ((lowered c v.header.name ≡ lowered c w.header.name)
          × (v.original_index ≤ w.original_index))

  not_greater :
      (v w : StableHeader) → canonical_header_comparator c v w ≢ Ordering.gt → Precedes v w
  unfolding canonical_header_comparator
  not_greater v w h = ground (
    arith,
    h,
    d.compare_lookup_eq v.header.name w.header.name c.to_lower,
    d.compare_lexical_same (lowered c v.header.name) (lowered c w.header.name),
  )

  greater : (v w : StableHeader) → canonical_header_comparator c v w ≡ Ordering.gt → Precedes w v
  unfolding canonical_header_comparator
  greater v w h = ground (
    arith,
    h,
    d.compare_lookup_eq v.header.name w.header.name c.to_lower,
    d.compare_lexical_same (lowered c v.header.name) (lowered c w.header.name),
    d.compare_lexical_gt (lowered c v.header.name) (lowered c w.header.name),
  )

  -- The headers that are signed, in the order in which they are written.
  abbrev pub sorted_headers : State → List Header → List StableHeader
  sorted_headers s hs = qsort (canonical_header_comparator c) (collect_headers c s hs).0

  -- The name of the one group is before that of the other.
  abbrev pub Before : Group → Group → Type 0
  Before g h = c.compare_lexical (lowered c g.name) (lowered c h.name) ≡ Ordering.lt

  renamed-Chain :
      (g h : Group) (gs : List Group)
      → lowered c g.name ≡ lowered c h.name
      → Chain Before (g ∷ gs)
      → Chain Before (h ∷ gs)
  renamed-Chain g h [] e chain = tt
  renamed-Chain g h (g' ∷ gs) e chain = (rw (sym e) chain.0, chain.1)

  groups-Chain : (ws : List StableHeader) → Chain Precedes ws → Chain Before (groups c ws)
  unfolding groups join_group
  groups-Chain [] h = tt
  groups-Chain (w ∷ []) h = tt
  groups-Chain (w ∷ v ∷ ws) h =
      let (others, gs, e) = join_group-first c v (groups c ws) in
      let behind = subst (Chain Before) e (groups-Chain (v ∷ ws) h.1) in
      let second : Group = record {
        name = v.header.name;
        first = v.header.value;
        others = others;
      } in
      let joined_group : Group = record {
        name = w.header.name;
        first = w.header.value;
        others = v.header.value ∷ others;
      } in
      elim (Bool-cases (same_name c w.header.name v.header.name)) [
        | inl same ↦ rw e (
            rw same (
              renamed-Chain second joined_group gs
                (sym ((bytes_eq_iff (lowered c w.header.name) (lowered c v.header.name)).0 same))
                behind))
        | inr new ↦ rw e (
            rw new (
              elim h.0 [
                | inl before ↦ before
                | inr (same, _) ↦
                    let yes =
                      (bytes_eq_iff (lowered c w.header.name) (lowered c v.header.name)).1 same in
                    cc (yes, new)
              ],
              behind,
            ))
      ]

  -- If the header list is there and none of its names is reserved, the header block is empty, and the list
  -- of signed names has room for the names, building the canonical headers succeeds. The headers that are
  -- signed are those of the request and of the process that are to be signed, in the order of their names in
  -- lower case and, under one name, in the order in which they were met; the names of the groups ascend
  -- strictly. The block has a line for each name, with the trimmed and squashed lines of its values, an
  -- empty line, and the names in the list, which are those names with semicolons between them. Nothing else
  -- of the state changes.
  pub build_canonical_headers-text :
      (s : State) (hs : List Header)
      → s.signable.get_property_list http_headers_list ≡ ok hs
      → validate_signable_header_list c hs ≡ ok tt
      → s.canonical_header_block.bytes ≡ []
      → Fits s.signed_headers (signed_text c (sorted_headers s hs))
      → Perm (collect_headers c s hs).0 (sorted_headers s hs)
        × Chain Precedes (sorted_headers s hs)
        × Chain Before (groups c (sorted_headers s hs))
        × Returns (build_canonical_headers c s) (λ r.
          (r.signed_headers.bytes ≡ s.signed_headers.bytes ++ signed_text c (sorted_headers s hs))
          × (r.canonical_header_block.bytes
              ≡ block_text c (sorted_headers s hs)
                ++ (b'\n' ∷ b'\n' ∷ (r.signed_headers.bytes ++ b'\n' ∷ [])))
          × (r ≡ record s {
            canonical_header_block = r.canonical_header_block;
            signed_headers = r.signed_headers;
          }))
  unfolding build_canonical_headers build_canonical_stable_header_list
  build_canonical_headers-text s hs listed valid empty fits =
      let cmp = canonical_header_comparator c in
      let ws = (collect_headers c s hs).0 in
      let sorted = sorted_headers s hs in
      let ordered = qsort-Chain cmp Precedes not_greater greater ws in
      let room : ByteBuf = record s.canonical_header_block {
        capacity =
            max s.canonical_header_block.capacity ((collect_headers c s hs).2 + length ws * 2);
      } in
      let cost : total_cost sorted ≡ (collect_headers c s hs).2 + length ws * 2 =
        omega (arith, total_cost-qsort cmp ws, total_cost-weight ws, weight-collect c s hs) in
      let block_fits : Fits room (block_text c sorted) =
        omega (arith, ap length empty, cost, length-block_text c d sorted) in
      let written =
        append_canonical_headers-text c d sorted room s.signed_headers block_fits fits in
      let block : written.value.0.bytes ≡ block_text c sorted =
        written.holds.0.0 ∙ ap (λ l. l ++ block_text c sorted) empty in
      (
        Perm-qsort cmp ws,
        ordered,
        groups-Chain sorted ordered,
        rw (listed, valid)
            (simp (d.reserve_eq, d.append_dynamic_eq, append_character_lem c d)
              (rw written.is_ok
                (returns _ _ (written.holds.1.0, simp (block, append_assoc), refl)))),
      )
