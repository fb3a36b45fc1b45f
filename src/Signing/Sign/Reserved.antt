-- ===== src/Signing/Sign/Reserved.antt =====
-- Requests that carry a name which the signing process reserves for itself.
use aws_c_auth.Common.{
  Bool, false, List, [], ◌∷◌, Option, none, some, Bytes, any, ◌≡◌, refl, sym, ap, codes, ◌∙◌,
  Result, ok, err, ◌>>=◌, >>=-eq-ok, arith,
}
use aws_c_auth.External.{buf_init, Library, Uri, UriParam}
use aws_c_auth.Signing.Config.{
  Algorithm, sig_v4_header, sig_v4_query_param, algorithm_count, BodySigning, off, on,
  unsigned_payload,
}
use aws_c_auth.Signing.Outcome.{SigningResult}
use aws_c_auth.Signing.State.{
  State, Header, Credentials, dispatch, table_has, forbidden_headers, forbidden_params,
  http_headers_list, http_uri_property,
}
use aws_c_auth.Signing.Headers.{validate_signable_header_list, build_canonical_headers}
use aws_c_auth.Signing.Query.{validate_query_params, append_canonical_query_string}
use aws_c_auth.Signing.Payload.{hash_payload, build_hashed_payload, build_canonical_payload_hash}
use aws_c_auth.Signing.Path.{append_canonical_path}
use aws_c_auth.Signing.Request.{
  build_credential_scope, append_canonical_method, build_canonical_request_sigv4,
  build_canonical_request,
}
use aws_c_auth.Signing.Sign.{completed, completion_of, run_stages, on_get_credentials}

dispatch-ok : {A : Type 0} (a : Algorithm) (m : Result A) {r : A} → dispatch a m ≡ ok r → m ≡ ok r
unfolding dispatch
dispatch-ok sig_v4_header m e = e
dispatch-ok sig_v4_query_param m e = e
dispatch-ok algorithm_count m e = cc

-- What follows from the outcome of the rest follows from that of the whole.
invert :
    {A B : Type 0} (m : Result A) (f : A → Result B) {b : B} {P : Type 0}
    → ((a : A) → m ≡ ok a → f a ≡ ok b → P)
    → (m >>= f) ≡ ok b
    → P
invert (ok a) f k e = k a refl e
invert (err x) f k e = cc

signable-ok : (s r : State) → Path (Result State) (ok s) (ok r) → r.signable ≡ s.signable
signable-ok s r e = cc

completed-ok :
    (m : Result State) {result : SigningResult}
    → completion_of m ≡ completed result
    → (r : State) × (m ≡ ok r)
completed-ok (ok r) e = (r, refl)
completed-ok (err x) e = cc

module _ (c : Library) where
  -- Some header, or some query parameter, has a reserved name.
  abbrev pub any_reserved_header : List Header → Bool
  any_reserved_header = any (λ h. table_has c forbidden_headers h.name)

  abbrev pub any_reserved_param : List UriParam → Bool
  any_reserved_param = any (λ p. table_has c forbidden_params p.key)

  validate_headers-ok :
      (hs : List Header)
      → validate_signable_header_list c hs ≡ ok tt
      → any_reserved_header hs ≡ false
  unfolding validate_signable_header_list any
  validate_headers-ok [] e = refl
  validate_headers-ok (h ∷ hs) e = ground (arith, e, validate_headers-ok hs)

  validate_params-ok :
      (ps : List UriParam) → validate_query_params c ps ≡ ok tt → any_reserved_param ps ≡ false
  unfolding validate_query_params any
  validate_params-ok [] e = refl
  validate_params-ok (p ∷ ps) e = ground (arith, e, validate_params-ok ps)

  headers-ok :
      (s r : State)
      → build_canonical_headers c s ≡ ok r
      → (hs : List Header) × (s.signable.get_property_list http_headers_list ≡ ok hs)
        × (any_reserved_header hs ≡ false)
  unfolding build_canonical_headers
  headers-ok s r e =
      let (hs, got, e) = >>=-eq-ok (s.signable.get_property_list http_headers_list) _ e in
      let (u, valid, _) = >>=-eq-ok (validate_signable_header_list c hs) _ e in
      (hs, got, validate_headers-ok hs valid)

  query-ok :
      (uri : Uri) (s r : State)
      → append_canonical_query_string c uri s ≡ ok r
      → (ps : List UriParam) × (c.uri_query_string_params uri ≡ ok ps)
        × (any_reserved_param ps ≡ false)
  unfolding append_canonical_query_string
  query-ok uri s r e =
      let (ps, got, e) = >>=-eq-ok (c.uri_query_string_params uri) _ e in
      let (u, valid, _) = >>=-eq-ok (validate_query_params c ps) _ e in
      (ps, got, validate_params-ok ps valid)

  hashed_payload-signable :
      (s r : State) → build_hashed_payload c s ≡ ok r → r.signable ≡ s.signable
  unfolding build_hashed_payload
  hashed_payload-signable s r = invert s.signable.get_payload_stream _ (λ stream _.
      invert (hash_payload c s.config.body_signing_type stream) _ (λ hash _.
        invert (c.hash_finalize hash (buf_init c.sha256_len)) _ (λ digest _.
          invert (c.hex_encode_append_dynamic digest.bytes s.payload_hash) _
            (λ buffer _ e. signable-ok _ r e))))

  -- the branches of the payload hash, off the record
  branch : BodySigning → State → Result State
  branch unsigned_payload s = c.append_dynamic s.payload_hash (codes "UNSIGNED-PAYLOAD") >>= λ h.
      ok (record s { payload_hash = h })
  branch _ s = build_hashed_payload c s

  branch_lem :
      (s : State) (t : BodySigning)
      → s.config.body_signing_type ≡ t
      → build_canonical_payload_hash c s ≡ branch t s
  unfolding build_canonical_payload_hash branch
  branch_lem s off q = rw q refl
  branch_lem s on q = rw q refl
  branch_lem s unsigned_payload q = rw q refl

  branch-signable : (s r : State) (t : BodySigning) → branch t s ≡ ok r → r.signable ≡ s.signable
  unfolding branch
  branch-signable s r off = hashed_payload-signable s r
  branch-signable s r on = hashed_payload-signable s r
  branch-signable s r unsigned_payload =
      invert (c.append_dynamic s.payload_hash (codes "UNSIGNED-PAYLOAD")) _
        (λ buffer _ e. signable-ok _ r e)

  payload-signable :
      (s r : State) → build_canonical_payload_hash c s ≡ ok r → r.signable ≡ s.signable
  payload-signable s r e =
      let t = s.config.body_signing_type in branch-signable s r t (sym (branch_lem s t refl) ∙ e)

  canonical_request-ok :
      (s r : State)
      → build_canonical_request_sigv4 c s ≡ ok r
      → (hs : List Header) × (uri_text : Bytes) × (uri : Uri) × (ps : List UriParam)
        × (s.signable.get_property_list http_headers_list ≡ ok hs)
        × (any_reserved_header hs ≡ false)
        × (s.signable.get_property http_uri_property ≡ ok uri_text)
        × (c.uri_init_parse uri_text ≡ ok uri)
        × (c.uri_query_string_params uri ≡ ok ps)
        × (any_reserved_param ps ≡ false)
  unfolding build_canonical_request_sigv4
  canonical_request-ok s r = invert (s.signable.get_property http_uri_property) _ (λ text got_text.
      invert (c.uri_init_parse text) _ (λ uri parsed.
        invert (c.date_time_to_utc_time_str s.config.date s.date) _ (λ date _.
          let s0 = record s { date = date } in
          invert (build_canonical_payload_hash c s0) _ (λ s1 hashed.
            invert (build_canonical_headers c s1) _ (λ s2 built.
              invert (build_credential_scope c s2) _ (λ s3 _.
                invert (append_canonical_method c s3) _ (λ s4 _.
                  invert (append_canonical_path c uri s4) _ (λ s5 _.
                    invert (append_canonical_query_string c uri s5) _ (λ s6 queried _.
                      let (hs, got, headers_free) = headers-ok s1 s2 built in
                      let (ps, params, params_free) = query-ok uri s5 s6 queried in
                      let same = payload-signable s0 s1 hashed in
                      (
                        hs,
                        text,
                        uri,
                        ps,
                        ap (λ x. x.get_property_list http_headers_list) (sym same) ∙ got,
                        headers_free,
                        got_text,
                        parsed,
                        params,
                        params_free,
                      ))))))))))

  -- If signing completes with a result, no header of the request and no parameter of its query
  -- string has a name that the signing process reserves for itself, compared without regard to case.
  pub on_get_credentials-unreserved :
      (s : State) (credentials : Option Credentials) (result : SigningResult)
      → on_get_credentials c s credentials ≡ completed result
      → (hs : List Header) × (uri_text : Bytes) × (uri : Uri) × (ps : List UriParam)
        × (s.signable.get_property_list http_headers_list ≡ ok hs)
        × (any_reserved_header hs ≡ false)
        × (s.signable.get_property http_uri_property ≡ ok uri_text)
        × (c.uri_init_parse uri_text ≡ ok uri)
        × (c.uri_query_string_params uri ≡ ok ps)
        × (any_reserved_param ps ≡ false)
  unfolding on_get_credentials run_stages build_canonical_request
  on_get_credentials-unreserved s none result e = cc
  on_get_credentials-unreserved s (some credentials) result e =
      let s' = record s { credentials = credentials } in
      let (r, ran) = completed-ok (run_stages c s') e in
      invert (build_canonical_request c s') _
        (λ s'' built _.
          canonical_request-ok s' s''
            (dispatch-ok s.config.algorithm (build_canonical_request_sigv4 c s') built))
        ran
