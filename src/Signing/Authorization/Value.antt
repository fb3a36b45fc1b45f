-- ===== src/Signing/Authorization/Value.antt =====
-- What aws_signing_build_authorization_value adds to the signing result.
use aws_c_auth.Common.{
  Bytes, codes, bytes_eq, List, [], ◌∷◌, ◌++◌, append_assoc, append-nil, ◌≡◌, ◌∙◌, refl, sym, ok,
  Returns, Returns-map, returns, Option, none, some, true, false,
}
use aws_c_auth.External.{ByteBuf, buf_init, Library, Documented, grown_to}
use aws_c_auth.Signing.Config.{
  sig_v4_header, sig_v4_query_param, is_header_auth, is_query_param_auth,
}
use aws_c_auth.Signing.Supported.{IsSupported, dispatch-IsSupported, algorithm_cursor-IsSupported}
use aws_c_auth.Signing.Outcome.{Property, append_property_list}
use aws_c_auth.Signing.Outcome.Lists.{contents, contents-append_property_list}
use aws_c_auth.Signing.State.{
  State, append_character, append_signing_algorithm, http_headers_list, http_query_params_list,
  authorization_header_name, authorization_query_param_name, date_name, security_token_name,
}
use aws_c_auth.Signing.Authorization.{
  build_authorization_value, append_authorization_header_preamble, append_signature_value,
  add_authorization_to_result, add_session_token_to_result,
}
use aws_c_auth.Signing.Authorization.Key.{mac, signature, signature_lem}

pub headers-params : bytes_eq http_headers_list http_query_params_list ≡ false
unfolding bytes_eq codes
headers-params = refl

pub params-headers : bytes_eq http_query_params_list http_headers_list ≡ false
unfolding bytes_eq codes
params-headers = refl

headers-headers : bytes_eq http_headers_list http_headers_list ≡ true
unfolding bytes_eq codes
headers-headers = refl

params-params : bytes_eq http_query_params_list http_query_params_list ≡ true
unfolding bytes_eq codes
params-params = refl

ruleset list_names =
    (headers-params, params-headers, headers-headers, params-params, contents-append_property_list)

abbrev pub property : Bytes → Bytes → Property
property n v = record { name = n; value = v }

-- The state behind the authorization property and X-Amz-Date.
abbrev dated : State → Bytes → Bytes → Bytes → State
dated s list_name name value = record s {
  result =
      append_property_list (append_property_list s.result list_name name value) http_headers_list
        date_name s.date.bytes;
}

-- The security token property, for credentials that have a token.
abbrev pub token_property : (Bytes → Bytes) → Option Bytes → List Property
token_property encode none = []
token_property encode (some token) = property security_token_name (encode token) ∷ []

module _ (c : Library) (d : Documented c) where
  open d use {encode_param}

  -- The value of the Authorization header.
  abbrev pub authorization_text : State → Bytes
  authorization_text s =
      codes "AWS4-HMAC-SHA256"
      ++ (codes " Credential="
          ++ (s.credentials.access_key_id
              ++ (b'/'
                  ∷ (s.credential_scope.bytes
                      ++ (codes ", SignedHeaders="
                          ++ (s.signed_headers.bytes
                              ++ (codes ", Signature=" ++ signature c d s)))))))

  signature_value_lem :
      (s : State) (dest : ByteBuf)
      → IsSupported s.config.algorithm
      → append_signature_value c s dest
        ≡ ok (grown_to dest (signature c d s) (d.hex_grown dest (mac c d s)))
  unfolding append_signature_value
  signature_value_lem s dest h = dispatch-IsSupported _ _ h ∙ signature_lem c d s dest

  preamble_lem :
      (s : State) (dest : ByteBuf)
      → IsSupported s.config.algorithm
      → Returns
          (append_authorization_header_preamble c s dest)
          (λ r. (r.bytes ++ signature c d s) ≡ dest.bytes ++ authorization_text s)
  unfolding append_authorization_header_preamble append_signing_algorithm append_character
  preamble_lem s dest h =
      simp (algorithm_cursor-IsSupported _ h, d.append_dynamic_eq) (returns _ _ (simp append_assoc))

  token_lem-header :
      (s : State) (token : Option Bytes)
      → is_query_param_auth s.config.algorithm ≡ false
      → Returns (add_session_token_to_result c s token) (λ r.
        (contents r.result http_headers_list
          ≡ contents s.result http_headers_list ++ token_property (λ t. t) token)
        × (contents r.result http_query_params_list ≡ contents s.result http_query_params_list))
  unfolding add_session_token_to_result
  token_lem-header s none q = returns _ _ (sym (append-nil _), refl)
  token_lem-header s (some token) q = rw q (returns _ _ (simp list_names, simp list_names))

  token_lem-query :
      (s : State) (token : Option Bytes)
      → is_query_param_auth s.config.algorithm ≡ true
      → Returns (add_session_token_to_result c s token) (λ r.
        (contents r.result http_query_params_list
          ≡ contents s.result http_query_params_list ++ token_property encode_param token)
        × (contents r.result http_headers_list ≡ contents s.result http_headers_list))
  unfolding add_session_token_to_result
  token_lem-query s none q = returns _ _ (sym (append-nil _), refl)
  token_lem-query s (some token) q =
      rw q (simp d.encode_param_eq (returns _ _ (simp list_names, simp list_names)))

  -- Under header auth, building the authorization value succeeds. The header list of the result then
  -- has, behind what it had, the Authorization header with the algorithm, the credential, the signed
  -- headers and the signature, then X-Amz-Date, then the unencoded session token if the credentials
  -- have one; the query parameters are unchanged.
  pub build_authorization_value-header :
      (s : State)
      → s.config.algorithm ≡ sig_v4_header
      → Returns (build_authorization_value c s) (λ r.
        (contents r.result http_headers_list
          ≡ contents s.result http_headers_list
            ++ (property authorization_header_name (authorization_text s)
                ∷ property date_name s.date.bytes
                ∷ token_property (λ t. t) s.credentials.session_token))
        × (contents r.result http_query_params_list ≡ contents s.result http_query_params_list))
  unfolding build_authorization_value add_authorization_to_result is_header_auth is_query_param_auth
  build_authorization_value-header s e =
      let supported : IsSupported s.config.algorithm = rw e (λ p. cc p) in
      let preamble = preamble_lem s (buf_init 512) supported in
      let signed = signature_value_lem s preamble.value supported in
      let is_header : is_header_auth s.config.algorithm ≡ true = rw e refl in
      let value : Bytes = preamble.value.bytes ++ signature c d s in
      simp (is_header, preamble.is_ok, signed)
        (Returns-map _ _
          (token_lem-header (dated s http_headers_list authorization_header_name value)
            s.credentials.session_token (rw e refl))
          (λ r tail.
            (tail.0 ∙ simp (list_names, preamble.holds, append_assoc), tail.1 ∙ simp list_names)))

  -- Under query parameter auth, building the authorization value succeeds. The query parameters of the
  -- result then have, behind what they had, X-Amz-Signature with the signature alone, then the URI
  -- encoded session token if the credentials have one; the header list has X-Amz-Date added.
  pub build_authorization_value-query :
      (s : State)
      → s.config.algorithm ≡ sig_v4_query_param
      → Returns (build_authorization_value c s) (λ r.
        (contents r.result http_query_params_list
          ≡ contents s.result http_query_params_list
            ++ (property authorization_query_param_name (signature c d s)
                ∷ token_property encode_param s.credentials.session_token))
        × (contents r.result http_headers_list
            ≡ contents s.result http_headers_list ++ property date_name s.date.bytes ∷ []))
  unfolding build_authorization_value add_authorization_to_result is_header_auth is_query_param_auth
  build_authorization_value-query s e =
      let supported : IsSupported s.config.algorithm = rw e (λ p. cc p) in
      let signed = signature_value_lem s (buf_init 512) supported in
      let no_header : is_header_auth s.config.algorithm ≡ false = rw e refl in
      let is_query : is_query_param_auth s.config.algorithm ≡ true = rw e refl in
      simp (no_header, is_query, signed)
        (Returns-map _ _
          (token_lem-query
            (dated s http_query_params_list authorization_query_param_name (signature c d s))
            s.credentials.session_token (rw e refl))
          (λ r tail. (tail.0 ∙ simp (list_names, append_assoc), tail.1 ∙ simp list_names)))
