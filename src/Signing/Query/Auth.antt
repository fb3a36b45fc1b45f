-- ===== src/Signing/Query/Auth.antt =====
-- The query parameters that s_add_authorization_query_params adds.
use aws_c_auth.Common.{
  true, List, [], ◌∷◌, ◌++◌, append_assoc, append-nil, Option, none, some, Bytes, codes,
  if◌then◌else◌, ◌≡◌, ◌∙◌, refl, sym, ok, Returns, returns, Returns-map, bytes_eq_refl, Bool-cases,
  inl, inr,
}
use aws_c_auth.External.{ByteBuf, UriParam, Library, Documented}
use aws_c_auth.Signing.Config.{sig_v4_query_param, is_query_param_auth}
use aws_c_auth.Signing.Outcome.{Property, append_property_list}
use aws_c_auth.Signing.Outcome.Lists.{contents, contents-append_property_list}
use aws_c_auth.Signing.State.{
  State, should_sign_param, http_headers_list, http_query_params_list, algorithm_query_param_name,
  credential_query_param_name, date_name, signed_headers_query_param_name, security_token_name,
}
use aws_c_auth.Signing.Supported.{IsSupported, algorithm_cursor-IsSupported}
use aws_c_auth.Signing.Authorization.Value.{params-headers}
use aws_c_auth.Signing.Query.{
  add_authorization_query_param_with_encoding, add_required_query_params,
  add_security_token_query_param, add_authorization_query_params,
}

abbrev param : Bytes → Bytes → UriParam
param key value = record { key = key; value = value }

module _ (c : Library) (d : Documented c) where
  open d use {encode_param}

  -- the session token, if there is one and the caller's filter and the skip table let it through
  abbrev pub token_params : State → Option Bytes → List UriParam
  token_params s none = []
  token_params s (some token) =
      if should_sign_param c s security_token_name then param security_token_name token ∷ [] else []

  -- The parameters of Signature Version 4 for query strings.
  abbrev pub auth_params : State → List UriParam
  auth_params s =
      param algorithm_query_param_name (codes "AWS4-HMAC-SHA256")
      ∷ param credential_query_param_name s.access_credential_scope.bytes
      ∷ param date_name s.date.bytes
      ∷ param signed_headers_query_param_name s.signed_headers.bytes
      ∷ token_params s s.credentials.session_token

  -- A parameter as it stands in the signing result, with its value encoded.
  abbrev pub encoded : UriParam → Property
  encoded p = record { name = p.key; value = encode_param p.value }

  abbrev pub encoded_all : List UriParam → List Property
  encoded_all [] = []
  encoded_all (p ∷ ps) = encoded p ∷ encoded_all ps

  abbrev pub with_param : State → UriParam → State
  with_param s p = record s {
    result = append_property_list s.result http_query_params_list p.key (encode_param p.value);
  }

  add_param_lem :
      (p : UriParam) (s : State) (ps : List UriParam) (buffer : ByteBuf)
      → add_authorization_query_param_with_encoding c p (s, ps, buffer)
        ≡ ok (
          with_param s p,
          ps ++ p ∷ [],
          record {
            bytes = encode_param p.value;
            capacity = d.encoding_grown (record buffer { bytes = [] }) p.value;
          },
        )
  unfolding add_authorization_query_param_with_encoding
  add_param_lem p s ps buffer = simp d.encode_param_eq

  with_param-contents :
      (s : State) (p : UriParam)
      → contents (with_param s p).result http_query_params_list
        ≡ contents s.result http_query_params_list ++ encoded p ∷ []
  with_param-contents s p =
      contents-append_property_list s.result http_query_params_list http_query_params_list p.key
        (encode_param p.value)
      ∙ rw (bytes_eq_refl http_query_params_list) refl

  with_param-headers :
      (s : State) (p : UriParam)
      → contents (with_param s p).result http_headers_list ≡ contents s.result http_headers_list
  with_param-headers s p =
      contents-append_property_list s.result http_query_params_list http_headers_list p.key
        (encode_param p.value)
      ∙ rw params-headers refl

  pub should_sign-config :
      (s s0 : State) (name : Bytes)
      → s.config ≡ s0.config
      → should_sign_param c s name ≡ should_sign_param c s0 name
  unfolding should_sign_param
  should_sign-config s s0 name e = rw e refl

  token_lem :
      (s0 s : State) (token : Option Bytes) (ps : List UriParam) (buffer : ByteBuf)
      → s.config ≡ s0.config
      → Returns (add_security_token_query_param c token (s, ps, buffer)) (λ (s', ps').
        (ps' ≡ ps ++ token_params s0 token)
        × (contents s'.result http_query_params_list
            ≡ contents s.result http_query_params_list ++ encoded_all (token_params s0 token))
        × (s' ≡ record s { result = s'.result })
        × (contents s'.result http_headers_list ≡ contents s.result http_headers_list))
  unfolding add_security_token_query_param
  token_lem s0 s none ps buffer e = returns _ _ (sym (append-nil _), sym (append-nil _), refl, refl)
  token_lem s0 s (some token) ps buffer e =
      rw (should_sign-config s s0 security_token_name e)
        (elim (Bool-cases (should_sign_param c s0 security_token_name)) [
          | inl q ↦ rw q (
              simp add_param_lem (
                returns _ _ (
                  refl,
                  with_param-contents s (param security_token_name token),
                  refl,
                  with_param-headers s (param security_token_name token),
                )))
          | inr q ↦ rw q (returns _ _ (sym (append-nil _), sym (append-nil _), refl, refl))
        ])

  -- Under query parameter auth, adding the authorization parameters succeeds. It adds the five
  -- parameters of Signature Version 4 behind those of the request (the last, the session token, only
  -- if the credentials have one that is not filtered), and adds the same ones, in this order and with
  -- encoded values, to the query parameters of the signing result; its header list and the rest of the
  -- state are unchanged.
  pub add_authorization_query_params-auth :
      (s : State) (ps : List UriParam)
      → s.config.algorithm ≡ sig_v4_query_param
      → Returns (add_authorization_query_params c s ps) (λ (s', ps').
        (ps' ≡ ps ++ auth_params s)
        × (contents s'.result http_query_params_list
            ≡ contents s.result http_query_params_list ++ encoded_all (auth_params s))
        × (s' ≡ record s { result = s'.result })
        × (contents s'.result http_headers_list ≡ contents s.result http_headers_list))
  unfolding add_authorization_query_params add_required_query_params is_query_param_auth
  add_authorization_query_params-auth s ps e =
      let supported : IsSupported s.config.algorithm = rw e (λ q. cc q) in
      let is_query : is_query_param_auth s.config.algorithm ≡ true = rw e refl in
      let algorithm = param algorithm_query_param_name (codes "AWS4-HMAC-SHA256") in
      let credential = param credential_query_param_name s.access_credential_scope.bytes in
      let date = param date_name s.date.bytes in
      let signed_headers = param signed_headers_query_param_name s.signed_headers.bytes in
      let s4 =
        with_param (with_param (with_param (with_param s algorithm) credential) date)
          signed_headers in
      simp (is_query, algorithm_cursor-IsSupported s.config.algorithm supported, add_param_lem)
        (Returns-map _ _ (token_lem s s4 s.credentials.session_token _ _ refl) (λ r h. (
          h.0 ∙ simp append_assoc,
          h.1 ∙ simp (with_param-contents, append_assoc),
          h.2,
          h.3 ∙ simp with_param-headers,
        )))
