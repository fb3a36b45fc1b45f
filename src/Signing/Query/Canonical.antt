-- ===== src/Signing/Query/Canonical.antt =====
-- The canonical query string as it stands in the canonical request, s_append_canonical_query_string.
use aws_c_auth.Common.{
  ◌≤◌, Option, none, some, Bytes, true, false, List, [], ◌∷◌, ◌++◌, append-nil, if◌then◌else◌, ◌≡◌,
  refl, sym, ap, subst, ◌∙◌, ok, Returns, returns, Returns-map, Bool-cases, inl, inr,
}
use aws_c_auth.Common.Sort.{qsort}
use aws_c_auth.External.{UriParam, Uri, Library, Documented}
use aws_c_auth.Signing.Buffers.{line-Extended}
use aws_c_auth.Signing.Config.{
  Algorithm, sig_v4_header, sig_v4_query_param, algorithm_count, is_query_param_auth,
}
use aws_c_auth.Signing.State.{State, security_token_name, http_headers_list, http_query_params_list}
use aws_c_auth.Signing.Outcome.{SigningResult, Property}
use aws_c_auth.Signing.Outcome.Lists.{contents}
use aws_c_auth.Signing.Query.{
  add_authorization_query_params, validate_query_params, append_canonical_query_string,
}
use aws_c_auth.Signing.Query.Auth.{
  encoded_all, auth_params, token_params, should_sign-config, add_authorization_query_params-auth,
}
use aws_c_auth.Signing.Query.Order.{query_text, query-text, by_name_and_value, comparator-by_name}

module _ (c : Library) (d : Documented c) where
  -- the parameters that are signed, in their order
  abbrev pub all_params : State → List UriParam → List UriParam
  all_params s ps = if is_query_param_auth s.config.algorithm then ps ++ auth_params c d s else ps

  abbrev pub sorted_params : State → List UriParam → List UriParam
  sorted_params s ps = qsort (by_name_and_value c d) (all_params s ps)

  -- what the signing result gains as query parameters
  abbrev pub added_params : State → List Property
  added_params s =
      if is_query_param_auth s.config.algorithm then encoded_all c d (auth_params c d s) else []

  token_params-same :
      (s r : State) (token : Option Bytes)
      → s.config ≡ r.config
      → token_params c d s token ≡ token_params c d r token
  token_params-same s r none e = refl
  token_params-same s r (some token) e = rw (should_sign-config c d s r security_token_name e) refl

  -- what the parameters depend on
  pub sorted_params-same :
      (s r : State) (ps : List UriParam)
      → s.config ≡ r.config
      → s.credentials ≡ r.credentials
      → s.date.bytes ≡ r.date.bytes
      → s.access_credential_scope.bytes ≡ r.access_credential_scope.bytes
      → s.signed_headers.bytes ≡ r.signed_headers.bytes
      → sorted_params s ps ≡ sorted_params r ps
  sorted_params-same s r ps config credentials date access signed =
      rw (token_params-same s r s.credentials.session_token config)
        (simp (config, credentials, date, access, signed))

  pub added_params-same :
      (s r : State)
      → s.config ≡ r.config
      → s.credentials ≡ r.credentials
      → s.date.bytes ≡ r.date.bytes
      → s.access_credential_scope.bytes ≡ r.access_credential_scope.bytes
      → s.signed_headers.bytes ≡ r.signed_headers.bytes
      → added_params s ≡ added_params r
  added_params-same s r config credentials date access signed =
      rw (token_params-same s r s.credentials.session_token config)
        (simp (config, credentials, date, access, signed))

  Adds : State → List UriParam → State × List UriParam → Type 0
  Adds s ps (s', ps') =
      (s' ≡ record s { result = s'.result })
      × (ps' ≡ all_params s ps)
      × (contents s'.result http_query_params_list
          ≡ contents s.result http_query_params_list ++ added_params s)
      × (contents s'.result http_headers_list ≡ contents s.result http_headers_list)

  add_params-query :
      (s : State) (ps : List UriParam)
      → s.config.algorithm ≡ sig_v4_query_param
      → Returns (add_authorization_query_params c s ps) (Adds s ps)
  unfolding is_query_param_auth Adds
  add_params-query s ps e =
      Returns-map _ _ (add_authorization_query_params-auth c d s ps e)
        (λ r h. (h.2, h.0 ∙ rw e refl, h.1 ∙ rw e refl, h.3))

  add_params-header :
      (s : State) (ps : List UriParam)
      → is_query_param_auth s.config.algorithm ≡ false
      → Returns (add_authorization_query_params c s ps) (Adds s ps)
  unfolding add_authorization_query_params Adds
  add_params-header s ps e = rw e (returns _ _ (refl, rw e refl, rw e (sym (append-nil _)), refl))

  is_query : (a : Algorithm) → is_query_param_auth a ≡ true → a ≡ sig_v4_query_param
  unfolding is_query_param_auth
  is_query sig_v4_query_param e = refl
  is_query sig_v4_header e = cc e
  is_query algorithm_count e = cc e

  add_params-text :
      (s : State) (ps : List UriParam) → Returns (add_authorization_query_params c s ps) (Adds s ps)
  add_params-text s ps = elim (Bool-cases (is_query_param_auth s.config.algorithm)) [
    | inl e ↦ add_params-query s ps (is_query s.config.algorithm e)
    | inr e ↦ add_params-header s ps e
  ]

  pub append_canonical_query_string-Extended :
      (uri : Uri) (s : State) (ps : List UriParam)
      → c.uri_query_string_params uri ≡ ok ps
      → validate_query_params c ps ≡ ok tt
      → Returns (append_canonical_query_string c uri s) (λ r.
        (r ≡ record s { result = r.result; canonical_request = r.canonical_request })
        × (r.canonical_request.bytes
            ≡ s.canonical_request.bytes ++ (query_text c d (sorted_params s ps) ++ b'\n' ∷ []))
        × (s.canonical_request.capacity ≤ r.canonical_request.capacity)
        × (contents r.result http_query_params_list
            ≡ contents s.result http_query_params_list ++ added_params s)
        × (contents r.result http_headers_list ≡ contents s.result http_headers_list))
  unfolding append_canonical_query_string Adds
  append_canonical_query_string-Extended uri s ps parsed valid =
      let added = add_params-text s ps in
      let sorted = sorted_params s ps in
      let s' : State = added.value.0 in
      let line =
        line-Extended c d s' _ (query_text c d sorted)
          (query-text c d sorted s'.canonical_request) in
      let same_request = ap (λ t. t.canonical_request) added.holds.0 in
      rw (parsed, valid, added.is_ok)
        (rw (added.holds.1, comparator-by_name c d)
          (Returns-map _ _ line (λ r h. (
            h.0
                ∙ (ap {A = State} (λ t. record t { canonical_request = r.canonical_request })
                      added.holds.0
                    ∙ ap {A = SigningResult}
                        (λ x. record s { result = x; canonical_request = r.canonical_request })
                        (sym (ap {A = State} (λ t. t.result) h.0))),
            h.1 ∙ ap (λ b. b.bytes ++ (query_text c d sorted ++ b'\n' ∷ [])) same_request,
            subst (λ b. b.capacity ≤ r.canonical_request.capacity) same_request h.2,
            ap {A = State} (λ t. contents t.result http_query_params_list) h.0 ∙ added.holds.2,
            ap {A = State} (λ t. contents t.result http_headers_list) h.0 ∙ added.holds.3,
          ))))
