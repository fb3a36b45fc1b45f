-- ===== src/Signing/Sign/Presign.antt =====
-- The whole of the signing process under query parameter auth: s_aws_signing_on_get_credentials.
use aws_c_auth.Common.{
  List, [], append-nil, ◌∷◌, ◌++◌, Option, some, Bytes, ◌≡◌, refl, ap, ◌∙◌, ok, Returns,
  Returns-bind, Returns-map,
}
use aws_c_auth.External.{Uri, UriParam, Library, Documented}
use aws_c_auth.Signing.Buffers.{FitsWithEnd, Fits}
use aws_c_auth.Signing.Config.{sig_v4_query_param, is_header_auth, is_query_param_auth}
use aws_c_auth.Signing.Outcome.{SigningResult, Property}
use aws_c_auth.Signing.Outcome.Lists.{contents}
use aws_c_auth.Signing.State.{
  State, Header, Stream, Credentials, http_headers_list, http_query_params_list,
  http_method_property, http_uri_property, authorization_query_param_name, date_name,
}
use aws_c_auth.Signing.Query.{validate_query_params}
use aws_c_auth.Signing.Headers.{validate_signable_header_list}
use aws_c_auth.Signing.Headers.Groups.{signed_text}
use aws_c_auth.Signing.Headers.Canonical.{sorted_headers}
use aws_c_auth.Signing.Payload.Digest.{Signed}
use aws_c_auth.Signing.Authorization.Key.{signature}
use aws_c_auth.Signing.Query.Auth.{auth_params, encoded_all}
use aws_c_auth.Signing.Request.Front.{described, IsFresh, dated, front_text}
use aws_c_auth.Signing.Authorization.Value.{
  property, token_property, build_authorization_value-query,
}
use aws_c_auth.Signing.Sign.{completed, run_stages, on_get_credentials}
use aws_c_auth.Signing.Sign.Ready.{ready, signature-same, two_stages-IsReady, run_stages_lem}

params_behind :
    (encode : Bytes → Bytes) {list before : List Property} {v v' : Bytes}
    {token token' : Option Bytes}
    → list ≡ before
    → v ≡ v'
    → token ≡ token'
    → list ++ (property authorization_query_param_name v ∷ token_property encode token)
      ≡ before ++ (property authorization_query_param_name v' ∷ token_property encode token')
params_behind encode e ev et = rw (e, ev, et) refl

date_behind :
    (before : List Property) {list : List Property} {b b' : Bytes}
    → list ≡ before ++ []
    → b ≡ b'
    → list ++ property date_name b ∷ [] ≡ before ++ property date_name b' ∷ []
date_behind before e eb = rw (e, eb, append-nil before) refl

module _ (c : Library) (d : Documented c) where
  run_stages-query :
      (s : State) (uri_cursor method : Bytes) (uri : Uri) (ps : List UriParam) (hs : List Header)
      (payload_stream : Option Stream) (chunks : List Bytes)
      → s.config.algorithm ≡ sig_v4_query_param
      → IsFresh s
      → s.string_to_sign.bytes ≡ []
      → s.signable.get_property http_uri_property ≡ ok uri_cursor
      → c.uri_init_parse uri_cursor ≡ ok uri
      → s.signable.get_property http_method_property ≡ ok method
      → s.signable.get_payload_stream ≡ ok payload_stream
      → Signed s.config.body_signing_type payload_stream chunks
      → s.signable.get_property_list http_headers_list ≡ ok hs
      → validate_signable_header_list c hs ≡ ok tt
      → c.uri_query_string_params uri ≡ ok ps
      → validate_query_params c ps ≡ ok tt
      → (let t = dated c d s chunks in
          let front = front_text c d t method uri ps hs in
          let hash = t.payload_hash.bytes in
          FitsWithEnd s.date (d.date_str s.config.date)
          → Fits s.signed_headers (signed_text c (sorted_headers c d t hs))
          → Fits s.canonical_request front
          → Returns (run_stages c s) (λ r.
            (contents r.result http_query_params_list
              ≡ (contents s.result http_query_params_list
                  ++ encoded_all c d (auth_params c d (described c d t hs)))
                ++ (property authorization_query_param_name
                      (signature c d (ready c d t hs (front ++ hash)))
                    ∷ token_property d.encode_param s.credentials.session_token))
            × (contents r.result http_headers_list
                ≡ contents s.result http_headers_list ++ property date_name t.date.bytes ∷ [])))
  unfolding is_header_auth is_query_param_auth
  run_stages-query s uri_cursor method uri ps hs p chunks query_auth fresh empty got_uri parsed
        got_method got_payload signed listed valid params valid_params date_fits signed_fits fits =
      let t = dated c d s chunks in
      let final = ready c d t hs (front_text c d t method uri ps hs ++ t.payload_hash.bytes) in
      rw (run_stages_lem c d s) (
        Returns-bind _ _ _ _
          (two_stages-IsReady c d s uri_cursor method uri ps hs p chunks (rw query_auth (λ q. cc q))
            fresh empty got_uri parsed got_method got_payload signed listed valid params
            valid_params date_fits signed_fits fits)
          (λ r2 (config, credentials, date, names, scope, text, headers, query).
            let value = signature-same c d r2 final config credentials text in
            Returns-map _ _
              (build_authorization_value-query c d r2 (ap (λ x. x.algorithm) config ∙ query_auth))
              (λ r h. (
                h.0
                    ∙ params_behind d.encode_param (query ∙ rw query_auth refl) value
                        (ap (λ x. x.session_token) credentials),
                h.1
                    ∙ date_behind (contents s.result http_headers_list)
                        (headers ∙ rw query_auth refl) date,
              ))))

  -- Under query parameter auth, with fresh buffers and credentials, where the request has a URI that is
  -- parsed, a method, a payload that is read to its end if it is to be signed, and a header list and
  -- query parameters without a reserved name, and where the date with a zero byte, the names and the
  -- front of the canonical request have room in their buffers, the process completes with a result,
  -- whichever of the three body configurations is set. Its query parameters gain the encoded
  -- authorization parameters, the signature of the string to sign that is made from the described
  -- canonical request, and the encoded session token once more if there is one; its header list gains
  -- X-Amz-Date.
  pub on_get_credentials-query :
      (s : State) (k : Credentials) (uri_cursor method : Bytes) (uri : Uri) (ps : List UriParam)
      (hs : List Header) (payload_stream : Option Stream) (chunks : List Bytes)
      → s.config.algorithm ≡ sig_v4_query_param
      → IsFresh s
      → s.string_to_sign.bytes ≡ []
      → s.signable.get_property http_uri_property ≡ ok uri_cursor
      → c.uri_init_parse uri_cursor ≡ ok uri
      → s.signable.get_property http_method_property ≡ ok method
      → s.signable.get_payload_stream ≡ ok payload_stream
      → Signed s.config.body_signing_type payload_stream chunks
      → s.signable.get_property_list http_headers_list ≡ ok hs
      → validate_signable_header_list c hs ≡ ok tt
      → c.uri_query_string_params uri ≡ ok ps
      → validate_query_params c ps ≡ ok tt
      → (let t = dated c d (record s { credentials = k }) chunks in
          let front = front_text c d t method uri ps hs in
          let hash = t.payload_hash.bytes in
          FitsWithEnd s.date (d.date_str s.config.date)
          → Fits s.signed_headers (signed_text c (sorted_headers c d t hs))
          → Fits s.canonical_request front
          → (result : SigningResult) × (on_get_credentials c s (some k) ≡ completed result)
            × (contents result http_query_params_list
                ≡ (contents s.result http_query_params_list
                    ++ encoded_all c d (auth_params c d (described c d t hs)))
                  ++ (property authorization_query_param_name
                        (signature c d (ready c d t hs (front ++ hash)))
                      ∷ token_property d.encode_param k.session_token))
            × (contents result http_headers_list
                ≡ contents s.result http_headers_list ++ property date_name t.date.bytes ∷ []))
  unfolding on_get_credentials run_stages is_header_auth is_query_param_auth
  on_get_credentials-query s k uri_cursor method uri ps hs p chunks query_auth fresh empty got_uri
        parsed got_method got_payload signed listed valid params valid_params date_fits signed_fits
        fits =
      let signed_run =
        run_stages-query (record s { credentials = k }) uri_cursor method uri ps hs p chunks
          query_auth fresh empty got_uri parsed got_method got_payload signed listed valid params
          valid_params date_fits signed_fits fits in
      (signed_run.value.result, rw signed_run.is_ok refl, signed_run.holds.0, signed_run.holds.1)
