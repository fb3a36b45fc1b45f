-- ===== src/Http/Presigned.antt =====
-- A request that was presigned with query parameters is not signed again.
use aws_c_auth.Common.{
  true, List, [], ◌∷◌, ◌++◌, Option, Bytes, codes, bytes_eq, any, ◌≡◌, ◌≢◌, sym, ap, ◌∙◌, Result,
  ok, ◌>>=◌, >>=-eq-ok, arith, Option-cases, inl, inr,
}
use aws_c_auth.External.{Library, Documented, Uri, UriParam}
use aws_c_auth.Signing.Config.{sig_v4_query_param}
use aws_c_auth.Signing.Outcome.{Property, SigningResult, get_property_list}
use aws_c_auth.Signing.Outcome.Lists.{contents, list_or_empty}
use aws_c_auth.Signing.State.{
  State, Credentials, http_query_params_list, authorization_query_param_name, table_has,
}
use aws_c_auth.Signing.Authorization.{build_authorization_value}
use aws_c_auth.Signing.Authorization.Key.{signature}
use aws_c_auth.Signing.Authorization.Value.{property, build_authorization_value-query}
use aws_c_auth.Signing.Sign.{completed, on_get_credentials}
use aws_c_auth.Signing.Sign.Reserved.{any_reserved_param, on_get_credentials-unreserved}
use aws_c_auth.Http.{
  Message, signed_params, build_request_uri, apply_signing_result_to_http_request,
  signable_http_request_get_property, signable_new_http_request,
}
use aws_c_auth.Http.Signed.{apply_lem}

append-nonempty : (ps qs : List Property) (p : Property) → ps ++ p ∷ qs ≢ []
append-nonempty [] qs p e = cc e
append-nonempty (x ∷ ps) qs p e = cc e

module _ (c : Library) (from_builder : Uri → List UriParam → Result Bytes) where
  reserved_param_behind :
      (ps qs : List UriParam)
      → any_reserved_param c qs ≡ true
      → any_reserved_param c (ps ++ qs) ≡ true
  unfolding any
  reserved_param_behind [] qs e = e
  reserved_param_behind (p ∷ ps) qs e = ground (arith, reserved_param_behind ps qs e)

  signature_reserved :
      (old rest : List Property) (value : Bytes)
      → ((name : Bytes) → c.eq_ignore_case name name ≡ true)
      → any_reserved_param c
          (signed_params (old ++ property authorization_query_param_name value ∷ rest))
        ≡ true
  unfolding signed_params any table_has
  signature_reserved [] rest value same = ground (arith, same authorization_query_param_name)
  signature_reserved (p ∷ old) rest value same =
      ground (arith, signature_reserved old rest value same)

  -- A message whose path has a reserved parameter does not sign.
  reserved_param-refused :
      (s : State) (m : Message) (cr : Option Credentials) (result : SigningResult) (uri : Uri)
      (ps : List UriParam)
      → c.uri_init_parse m.path ≡ ok uri
      → c.uri_query_string_params uri ≡ ok ps
      → any_reserved_param c ps ≡ true
      → on_get_credentials c (record s { signable = signable_new_http_request m }) cr
        ≢ completed result
  unfolding signable_new_http_request signable_http_request_get_property bytes_eq codes
  reserved_param-refused s m cr result uri ps parsed params reserved e =
      let (_, _, _, _, _, _, text, parsed', params', free) =
        on_get_credentials-unreserved c (record s { signable = signable_new_http_request m }) cr
          result e in
      cc (text, parsed', params', free, parsed, params, reserved)

  abbrev rebuild : Message → List Property → Result Message
  rebuild m l = do
    old_uri ← c.uri_init_parse m.path
    query_params ← c.uri_query_string_params old_uri
    new_uri ← from_builder old_uri (query_params ++ signed_params l)
    ok (record m { path = new_uri })

  -- The path that a result with query parameters gives.
  path_lem :
      (m m' : Message) (r : SigningResult) (ps : List Property)
      → ps ≢ []
      → contents r http_query_params_list ≡ ps
      → apply_signing_result_to_http_request c from_builder m r ≡ ok m'
      → (uri : Uri) × (old : List UriParam) × (c.uri_init_parse m.path ≡ ok uri)
        × (c.uri_query_string_params uri ≡ ok old)
        × (from_builder uri (old ++ signed_params ps) ≡ ok m'.path)
  unfolding build_request_uri
  path_lem m m' r ps some_param e applied =
      let (m'', built, is) =
        >>=-eq-ok (build_request_uri c from_builder m r) _
          (sym (apply_lem c from_builder m r) ∙ applied) in
      elim (Option-cases (get_property_list r http_query_params_list)) [
        | inl n ↦ absurd (some_param (sym (ap list_or_empty (sym n) ∙ e)))
        | inr (l, n) ↦
            let same : l ≡ ps = ap list_or_empty (sym n) ∙ e in
            let build : build_request_uri c from_builder m r ≡ rebuild m l =
              simp (build_request_uri, n) in
            let (uri, parsed, e1) = >>=-eq-ok (c.uri_init_parse m.path) _ (sym build ∙ built) in
            let (old, params, e2) = >>=-eq-ok (c.uri_query_string_params uri) _ e1 in
            let (text, made, e3) = >>=-eq-ok (from_builder uri (old ++ signed_params l)) _ e2 in
            (
              uri,
              old,
              parsed,
              params,
              ap (λ l. from_builder uri (old ++ signed_params l)) (sym same) ∙ (made ∙ cc (e3, is)),
            )
      ]

  -- A message that was presigned with query parameters does not sign again: if the first signing under
  -- query parameter auth gives a result, which is applied to a message whose URI has some parameters, then
  -- signing what was made never completes with a result, provided that the URI which is built from these
  -- parameters and those of the result, if it is, parses to them. The comparison of names without
  -- regard to case has each name equal itself.
  pub presigned_message-refused :
      (d : Documented c) (first second r : State) (m m' : Message)
      (credentials : Option Credentials) (result : SigningResult) (uri : Uri) (old : List UriParam)
      → ((name : Bytes) → c.eq_ignore_case name name ≡ true)
      → first.config.algorithm ≡ sig_v4_query_param
      → build_authorization_value c first ≡ ok r
      → c.uri_init_parse m.path ≡ ok uri
      → c.uri_query_string_params uri ≡ ok old
      → (let params = old ++ signed_params (contents r.result http_query_params_list) in
          ((text : Bytes)
            → from_builder uri params ≡ ok text
            → (built : Uri) × (c.uri_init_parse text ≡ ok built)
              × (c.uri_query_string_params built ≡ ok params))
          → apply_signing_result_to_http_request c from_builder m r.result ≡ ok m'
          → on_get_credentials c
              (record second { signable = signable_new_http_request m' })
              credentials
            ≢ completed result)
  presigned_message-refused d first second r m m' cr result uri old same e signed parsed params
        parses applied =
      let value = build_authorization_value-query c d first e in
      let gained : contents r.result http_query_params_list
          ≡ contents value.value.result http_query_params_list =
        cc (signed, value.is_ok) in
      let text = gained ∙ value.holds.0 in
      let (uri', old', parsed', params', made) =
        path_lem m m' r.result _
          (append-nonempty (contents first.result http_query_params_list) _ _) text applied in
      let (built, built_parsed, built_params) =
        parses m'.path (cc (made, text, parsed, parsed', params, params')) in
      reserved_param-refused second m' cr result built _ built_parsed built_params (
        reserved_param_behind old _ (
          ap (λ l. any_reserved_param c (signed_params l)) text
          ∙ signature_reserved (contents first.result http_query_params_list) _
              (signature c d first) same))
