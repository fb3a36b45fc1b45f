-- ===== src/Signing/Sign/Ready.antt =====
-- The state that the last stage of the signing process finds.
use aws_c_auth.Common.{
  List, [], sym, subst, ◌>>=◌, >>=-assoc, ◌++◌, Option, Bytes, ◌≡◌, refl, ap, ◌∙◌, ok, Returns,
  Returns-bind, Returns-map,
}
use aws_c_auth.External.{Uri, UriParam, Library, Documented}
use aws_c_auth.Signing.Buffers.{FitsWithEnd, Fits}
use aws_c_auth.Signing.Outcome.Lists.{contents}
use aws_c_auth.Signing.State.{
  State, Header, Stream, http_headers_list, http_query_params_list, http_method_property,
  http_uri_property,
}
use aws_c_auth.Signing.Supported.{IsSupported}
use aws_c_auth.Signing.Query.{validate_query_params}
use aws_c_auth.Signing.Headers.{validate_signable_header_list}
use aws_c_auth.Signing.Headers.Groups.{signed_text}
use aws_c_auth.Signing.Headers.Canonical.{sorted_headers}
use aws_c_auth.Signing.Payload.Digest.{Signed}
use aws_c_auth.Signing.Request.{build_canonical_request, build_string_to_sign}
use aws_c_auth.Signing.Request.Stages.{hash_headers}
use aws_c_auth.Signing.Authorization.{build_authorization_value}
use aws_c_auth.Signing.Authorization.Key.{signature}
use aws_c_auth.Signing.Request.Scope.{scope_text}
use aws_c_auth.Signing.Query.Canonical.{added_params}
use aws_c_auth.Signing.Request.Front.{described, IsFresh, dated, front_text}
use aws_c_auth.Signing.Request.Canonical.{build_canonical_request-text}
use aws_c_auth.Signing.Request.StringToSign.{four_lines, build_string_to_sign-four_lines}
use aws_c_auth.Signing.Authorization.Value.{authorization_text}
use aws_c_auth.Signing.Sign.{run_stages}

module _ (c : Library) (d : Documented c) where
  -- The state with the texts that the signature is made from: the canonical request, the names, the scope,
  -- and the string to sign.
  abbrev pub ready : State → List Header → Bytes → State
  ready t hs canonical =
      let written : State = record t {
        canonical_request = record t.canonical_request { bytes = canonical };
        signed_headers = record t.signed_headers {
          bytes = signed_text c (sorted_headers c d t hs);
        };
        credential_scope = record t.credential_scope { bytes = scope_text c d t };
      } in
      record written { string_to_sign = record t.string_to_sign { bytes = four_lines c d written } }

  pub authorization_text-same :
      (s r : State)
      → s.config ≡ r.config
      → s.credentials ≡ r.credentials
      → s.credential_scope.bytes ≡ r.credential_scope.bytes
      → s.signed_headers.bytes ≡ r.signed_headers.bytes
      → s.string_to_sign.bytes ≡ r.string_to_sign.bytes
      → authorization_text c d s ≡ authorization_text c d r
  authorization_text-same s r config credentials scope signed text =
      rw (config, credentials, scope, signed, text) refl

  pub signature-same :
      (s r : State)
      → s.config ≡ r.config
      → s.credentials ≡ r.credentials
      → s.string_to_sign.bytes ≡ r.string_to_sign.bytes
      → signature c d s ≡ signature c d r
  signature-same s r config credentials text = rw (config, credentials, text) refl

  -- What the last stage finds.
  abbrev pub IsReady : State → List Header → Bytes → State → Type 0
  IsReady t hs canonical r =
      (r.config ≡ t.config)
      × (r.credentials ≡ t.credentials)
      × (r.date.bytes ≡ t.date.bytes)
      × (r.signed_headers.bytes ≡ signed_text c (sorted_headers c d t hs))
      × (r.credential_scope.bytes ≡ scope_text c d t)
      × (r.string_to_sign.bytes ≡ (ready t hs canonical).string_to_sign.bytes)
      × (contents r.result http_headers_list
          ≡ contents t.result http_headers_list ++ hash_headers c d t)
      × (contents r.result http_query_params_list
          ≡ contents t.result http_query_params_list ++ added_params c d (described c d t hs))

  pub two_stages-IsReady :
      (s : State) (uri_cursor method : Bytes) (uri : Uri) (ps : List UriParam) (hs : List Header)
      (payload_stream : Option Stream) (chunks : List Bytes)
      → IsSupported s.config.algorithm
      → IsFresh s
      → s.string_to_sign.bytes ≡ []
      → s.signable.get_property http_uri_property ≡ ok uri_cursor
      → c.uri_init_parse uri_cursor ≡ ok uri
      → s.signable.get_property http_method_property ≡ ok method
      → s.signable.get_payload_stream ≡ ok payload_stream
      → Signed s.config.body_signing_type payload_stream chunks
      → s.signable.get_property_list http_headers_list ≡ ok hs
      → validate_signable_header_list c hs ≡ ok tt
      → c.uri_query_string_params uri ≡ ok ps
      → validate_query_params c ps ≡ ok tt
      → (let t = dated c d s chunks in
          let front = front_text c d t method uri ps hs in
          FitsWithEnd s.date (d.date_str s.config.date)
          → Fits s.signed_headers (signed_text c (sorted_headers c d t hs))
          → Fits s.canonical_request front
          → Returns
              (build_canonical_request c s >>= (λ r. build_string_to_sign c r))
              (IsReady t hs (front ++ t.payload_hash.bytes)))
  two_stages-IsReady s uri_cursor method uri ps hs p chunks supported fresh empty got_uri parsed
        got_method got_payload signed listed valid params valid_params date_fits signed_fits fits =
      let t = dated c d s chunks in
      Returns-bind _ _ _ _
        (build_canonical_request-text c d s uri_cursor method uri ps hs p chunks supported fresh
          got_uri parsed got_method got_payload signed listed valid params valid_params date_fits
          signed_fits fits)
        (λ r1 h1.
          let (config, credentials, date, to_sign, names, scope, headers, query) = h1.1 in
          let supported1 : IsSupported r1.config.algorithm =
            subst IsSupported (sym (ap (λ x. x.algorithm) config)) supported in
          Returns-map _ _
            (build_string_to_sign-four_lines c d r1 supported1 (ap (λ b. b.bytes) to_sign ∙ empty))
            (λ r h. (
              ap (λ x. x.config) h.1 ∙ config,
              ap (λ x. x.credentials) h.1 ∙ credentials,
              ap (λ x. x.date.bytes) h.1 ∙ ap (λ b. b.bytes) date,
              ap (λ x. x.signed_headers.bytes) h.1 ∙ names,
              ap (λ x. x.credential_scope.bytes) h.1 ∙ scope,
              h.0 ∙ rw (ap (λ b. b.bytes) date, scope, h1.0) refl,
              ap (λ x. contents x.result http_headers_list) h.1 ∙ headers,
              ap (λ x. contents x.result http_query_params_list) h.1 ∙ query,
            )))

  pub run_stages_lem :
      (s : State)
      → run_stages c s ≡ (
          (build_canonical_request c s >>= (λ r. build_string_to_sign c r))
          >>= (λ r. build_authorization_value c r))
  unfolding run_stages
  run_stages_lem s = sym (>>=-assoc (build_canonical_request c s) _ _)
