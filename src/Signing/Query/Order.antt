-- ===== src/Signing/Query/Order.antt =====
-- The canonical query string: its parameters in order, and its text.
use mathlib.Core.List.{Perm}
use aws_c_auth.Common.{
  List, [], ◌∷◌, ◌++◌, append_assoc, Bytes, Ordering, ◌⊎◌, inl, inr, if◌then◌else◌, bytes_eq,
  bytes_eq_iff, Bool-cases, ◌≡◌, ◌≢◌, refl, sym, ap, fun_ext, ok, Returns, returns, arith, ◌∙◌,
}
use aws_c_auth.Common.Sort.{qsort}
use aws_c_auth.Common.Sort.Laws.{Chain, Ordering-cases, qsort-Chain, Perm-qsort}
use aws_c_auth.External.{ByteBuf, Uri, UriParam, Library, Documented}
use aws_c_auth.Signing.State.{State}
use aws_c_auth.Signing.Buffers.{
  Writes, Writes-nothing, Writes-bind, append_character-text, append_character_lem,
}
use aws_c_auth.Signing.Query.{
  canonical_query_param_comparator, append_canonical_query_param, add_authorization_query_params,
  validate_query_params, append_query_params, append_canonical_query_string,
}

module _ (c : Library) (d : Documented c) where
  open d use {encode_param}

  -- A parameter may stand in front of another: its name is the lesser one, or the names are the same and
  -- its value is not the greater one.
  abbrev pub InOrder : UriParam → UriParam → Type 0
  InOrder p q =
      (c.compare_lexical p.key q.key ≡ Ordering.lt)
      ⊎ ((p.key ≡ q.key) × (c.compare_lexical p.value q.value ≢ Ordering.gt))

  not_greater :
      (p q : UriParam) → canonical_query_param_comparator c p q ≢ Ordering.gt → InOrder p q
  unfolding canonical_query_param_comparator
  not_greater p q h = elim (Ordering-cases (c.compare_lexical p.key q.key)) [
    | inl e ↦ absurd (h (rw (canonical_query_param_comparator, e) refl))
    | inr (inl e) ↦ inl e
    | inr (inr e) ↦ inr (
      d.compare_lexical_same p.key q.key e,
      λ g. h (rw (canonical_query_param_comparator, e, g) refl),
    )
  ]

  greater : (p q : UriParam) → canonical_query_param_comparator c p q ≡ Ordering.gt → InOrder q p
  unfolding canonical_query_param_comparator
  greater p q h = elim (Ordering-cases (c.compare_lexical p.key q.key)) [
    | inl e ↦ inl (d.compare_lexical_gt p.key q.key e)
    | inr (inl e) ↦
        let less : canonical_query_param_comparator c p q ≡ Ordering.lt =
          rw (canonical_query_param_comparator, e) refl in
        cc (h, less)
    | inr (inr e) ↦
        let values : c.compare_lexical p.value q.value ≡ Ordering.gt = ground (arith, e, h) in
        inr (
          sym (d.compare_lexical_same p.key q.key e),
          λ g. cc (d.compare_lexical_gt p.value q.value values, g),
        )
  ]

  -- The order by name and then by value.
  abbrev pub by_name_and_value : UriParam → UriParam → Ordering
  by_name_and_value p q =
      if bytes_eq p.key q.key
      then c.compare_lexical p.value q.value
      else c.compare_lexical p.key q.key

  comparator_lem : (p q : UriParam) → canonical_query_param_comparator c p q ≡ by_name_and_value p q
  unfolding canonical_query_param_comparator
  comparator_lem p q = elim (Bool-cases (bytes_eq p.key q.key)) [
    | inl e ↦
        let same : c.compare_lexical p.key q.key ≡ Ordering.eq =
          ap (c.compare_lexical p.key) (sym ((bytes_eq_iff p.key q.key).0 e))
          ∙ d.compare_lexical_refl p.key in
        rw (canonical_query_param_comparator, e, same) refl
    | inr e ↦ elim (Ordering-cases (c.compare_lexical p.key q.key)) [
      | inl o ↦ rw (canonical_query_param_comparator, e, o) refl
      | inr (inl o) ↦ rw (canonical_query_param_comparator, e, o) refl
      | inr (inr o) ↦ cc (e, (bytes_eq_iff p.key q.key).1 (d.compare_lexical_same p.key q.key o))
    ]
  ]

  pub comparator-by_name : canonical_query_param_comparator c ≡ by_name_and_value
  comparator-by_name = fun_ext (λ p. fun_ext (λ q. comparator_lem p q))

  -- A parameter's text: the encoded name and value with an equals sign between them.
  abbrev pub param_text : UriParam → Bytes
  param_text p = encode_param p.key ++ (b'=' ∷ encode_param p.value)

  -- The parameters' texts with ampersands between them.
  abbrev pub query_text : List UriParam → Bytes
  query_text [] = []
  query_text (p ∷ []) = param_text p
  query_text (p ∷ q ∷ ps) = param_text p ++ (b'&' ∷ query_text (q ∷ ps))

  encode_param-text :
      (b : ByteBuf) (s : Bytes) → Writes b (c.append_encoding_uri_param b s) (encode_param s)
  encode_param-text b s =
      rw (d.encode_param_eq b s) (returns _ _ (refl, d.encoding_grown_keeps b s))

  param-text :
      (p : UriParam) (b : ByteBuf) → Writes b (append_canonical_query_param c p b) (param_text p)
  unfolding append_canonical_query_param
  param-text p b = Writes-bind b _ _ (encode_param p.key) _ (encode_param-text b p.key) (λ r _ _.
      Writes-bind r _ _ (b'=' ∷ []) _ (append_character-text c d r b'=')
        (λ r' _ _. encode_param-text r' p.value))

  pub query-text :
      (ps : List UriParam) (b : ByteBuf) → Writes b (append_query_params c ps b) (query_text ps)
  unfolding append_query_params
  query-text [] b = Writes-nothing b
  query-text (p ∷ []) b = param-text p b
  query-text (p ∷ q ∷ ps) b = Writes-bind b _ _ (param_text p) _ (param-text p b) (λ r _ _.
      Writes-bind r _ _ (b'&' ∷ []) _ (append_character-text c d r b'&')
        (λ r' _ _. query-text (q ∷ ps) r'))

  -- If the query string is parsed, none of its names is reserved, and the authorization parameters
  -- are added, appending the canonical query string succeeds. What it appends to the canonical request is
  -- the text of a permutation of all parameters in which of two neighbours the first has the lesser
  -- name, or the same name and no greater value, with a newline behind it.
  pub append_canonical_query_string-text :
      (uri : Uri) (s s' : State) (params all_params : List UriParam)
      → c.uri_query_string_params uri ≡ ok params
      → validate_query_params c params ≡ ok tt
      → add_authorization_query_params c s params ≡ ok (s', all_params)
      → (sorted : List UriParam) × Perm all_params sorted
        × Chain InOrder sorted
        × Returns (append_canonical_query_string c uri s) (λ r.
          r.canonical_request.bytes
          ≡ s'.canonical_request.bytes ++ (query_text sorted ++ b'\n' ∷ []))
  unfolding append_canonical_query_string
  append_canonical_query_string-text uri s s' params all_params parsed valid added =
      let cmp = canonical_query_param_comparator c in
      let sorted = qsort cmp all_params in
      let written = query-text sorted s'.canonical_request in
      (
        sorted,
        Perm-qsort cmp all_params,
        qsort-Chain cmp InOrder not_greater greater all_params,
        rw (parsed, valid, added, written.is_ok)
            (simp (append_character_lem c d) (returns _ _ (simp (written.holds.0, append_assoc)))),
      )
