-- ===== src/Signing/Request/Canonical.antt =====
-- The canonical request, aws_signing_build_canonical_request.
use aws_c_auth.Common.{
  List, [], ◌∷◌, ◌++◌, Option, Bytes, length, ◌≡◌, refl, sym, ap, subst, ◌∙◌, ok, ◌>>=◌, Returns,
  Returns-bind, Returns-map, arith,
}
use aws_c_auth.External.{Uri, UriParam, Library, Documented}
use aws_c_auth.Signing.Buffers.{FitsWithEnd, Fits}
use aws_c_auth.Signing.State.{
  State, Header, Stream, http_headers_list, http_method_property, http_uri_property,
}
use aws_c_auth.Signing.Supported.{IsSupported, dispatch-IsSupported}
use aws_c_auth.Signing.Query.{validate_query_params, append_canonical_query_string}
use aws_c_auth.Signing.Query.Canonical.{sorted_params-same, added_params, added_params-same}
use aws_c_auth.Signing.Headers.{validate_signable_header_list, build_canonical_headers}
use aws_c_auth.Signing.Headers.Groups.{block_text, signed_text}
use aws_c_auth.Signing.Headers.Canonical.{sorted_headers, build_canonical_headers-text}
use aws_c_auth.Signing.Payload.Digest.{Signed, payload_hash-with_digest}
use aws_c_auth.Signing.Payload.{append_canonical_payload_hash}
use aws_c_auth.Signing.Path.{append_canonical_path}
use aws_c_auth.Signing.Request.{
  append_canonical_method, build_credential_scope, append_header_block, build_canonical_request,
  build_canonical_request_sigv4,
}
use aws_c_auth.Signing.Request.Scope.{scope_text, build_credential_scope-text}
use aws_c_auth.Signing.Request.Front.{described, front_of, front_text, headers_text, dated, IsFresh}
use aws_c_auth.Signing.Request.Middle.{
  Settled, scope_from, kept, kept_by_headers, scope_text_by, front-same, middle-text,
}

module _ (c : Library) (d : Documented c) where
  stages-text :
      (t : State) (method : Bytes) (uri : Uri) (ps : List UriParam) (hs : List Header)
      → IsSupported t.config.algorithm
      → IsFresh t
      → t.signable.get_property http_method_property ≡ ok method
      → t.signable.get_property_list http_headers_list ≡ ok hs
      → validate_signable_header_list c hs ≡ ok tt
      → c.uri_query_string_params uri ≡ ok ps
      → validate_query_params c ps ≡ ok tt
      → Fits t.signed_headers (signed_text c (sorted_headers c d t hs))
      → Fits t.canonical_request (front_text c d t method uri ps hs)
      → Returns
          (build_canonical_headers c t >>= (λ s3. build_credential_scope c s3 >>= (λ s4.
            append_canonical_method c s4 >>= (λ s5. append_canonical_path c uri s5 >>= (λ s6.
              append_canonical_query_string c uri s6 >>= (λ s7.
                append_header_block c s7 >>= (λ s8. append_canonical_payload_hash c s8)))))))
          (λ r.
            (r.canonical_request.bytes ≡ front_text c d t method uri ps hs ++ t.payload_hash.bytes)
            × Settled c d t hs r)
  unfolding kept kept_by_headers scope_text_by
  stages-text t method uri ps hs supported fresh got_method listed valid params valid_params
        signed_fits fits =
      let (request_nil, signed_nil, block_nil, scope_nil, access_nil) = fresh in
      Returns-bind _ _ _ _
        (build_canonical_headers-text c d t hs listed valid block_nil signed_fits).3
        (λ s3 h3.
          let e3 : kept_by_headers s3 ≡ kept_by_headers t = ap kept_by_headers h3.2 in
          let supported3 : IsSupported s3.config.algorithm =
            subst IsSupported (sym (ap (λ k. k.0.algorithm) e3)) supported in
          Returns-bind _ _ _ _ (build_credential_scope-text c d s3 supported3) (λ s4 h4.
            let e4 : kept s4 ≡ kept s3 = ap kept h4.2 in
            let signed = signed_text c (sorted_headers c d t hs) in
            let config : s4.config ≡ t.config = ap (λ k. k.0) e4 ∙ ap (λ k. k.0) e3 in
            let signable : s4.signable ≡ t.signable = ap (λ k. k.1) e4 ∙ ap (λ k. k.1) e3 in
            let credentials : s4.credentials ≡ t.credentials =
              ap (λ k. k.2) e4 ∙ ap (λ k. k.2) e3 in
            let hash : s4.payload_hash ≡ t.payload_hash = ap (λ k. k.5) e4 ∙ ap (λ k. k.3) e3 in
            let date : s4.date ≡ t.date = ap (λ k. k.6) e4 ∙ ap (λ k. k.4) e3 in
            let request : s4.canonical_request ≡ t.canonical_request =
              ap (λ x. x.canonical_request) h4.2 ∙ ap (λ k. k.5) e3 in
            let signed3 : s3.signed_headers.bytes ≡ signed =
              h3.0 ∙ ap (λ l. l ++ signed) signed_nil in
            let block : s4.canonical_header_block.bytes ≡ headers_text c d t hs =
              ap (λ k. k.4.bytes) e4
              ∙ (h3.1
                  ∙ ap
                      (λ l.
                        block_text c (sorted_headers c d t hs)
                        ++ (b'\n' ∷ b'\n' ∷ (l ++ b'\n' ∷ [])))
                      signed3) in
            let scope : s4.credential_scope.bytes ≡ scope_text c d t =
              scope_from h4.0 (ap (λ k. k.6.bytes) e3 ∙ scope_nil)
                (ap (λ k. scope_text_by c d k.0) e3) in
            let access : s4.access_credential_scope.bytes
                ≡ t.credentials.access_key_id ++ (b'/' ∷ scope_text c d t) =
              scope_from h4.1 (ap (λ k. k.7.bytes) e3 ∙ access_nil) (
                ap (λ l. s3.credentials.access_key_id ++ (b'/' ∷ l)) scope
                ∙ ap (λ k. k.2.access_key_id ++ (b'/' ∷ scope_text c d t)) e3) in
            let front : front_of c d s4 method uri ps s4.canonical_header_block.bytes
                ≡ front_text c d t method uri ps hs =
              front-same c d s4 (described c d t hs) method uri ps config block (
                sorted_params-same c d s4 (described c d t hs) ps config credentials
                  (ap (λ b. b.bytes) date) access (ap (λ k. k.3.bytes) e4 ∙ signed3)) in
            let added : added_params c d s4 ≡ added_params c d (described c d t hs) =
              added_params-same c d s4 (described c d t hs) config credentials
                (ap (λ b. b.bytes) date) access (ap (λ k. k.3.bytes) e4 ∙ signed3) in
            Returns-map _ _
              (middle-text c d s4 method uri ps
                (ap (λ x. x.get_property http_method_property) signable ∙ got_method) params
                valid_params (ap (λ b. b.bytes) request ∙ request_nil)
                (omega (
                  arith,
                  fits,
                  ap length front,
                  ap (λ b. length b.bytes) request,
                  ap (λ b. b.capacity) request,
                )))
              (λ r h.
                let same = h.1.0 in
                (
                  h.0
                      ∙ (ap (λ l. l ++ s4.payload_hash.bytes) front
                          ∙ ap (λ b. front_text c d t method uri ps hs ++ b.bytes) hash),
                  (
                    ap (λ k. k.0) same ∙ config,
                    ap (λ k. k.2) same ∙ credentials,
                    ap (λ k. k.6) same ∙ date,
                    ap (λ k. k.7) same ∙ (ap (λ k. k.7) e4 ∙ ap (λ k. k.8) e3),
                    ap (λ k. k.3.bytes) same ∙ (ap (λ k. k.3.bytes) e4 ∙ signed3),
                    ap (λ b. b.bytes) h.1.1 ∙ scope,
                    h.1.2 ∙ rw (ap (λ x. x.result) h4.2, ap (λ k. k.9) e3, config, hash) refl,
                    h.1.3 ∙ rw (ap (λ x. x.result) h4.2, ap (λ k. k.9) e3, added) refl,
                  ),
                ))))

  -- With a supported algorithm and fresh buffers, where the request has a URI that is parsed, a method,
  -- a payload that is read to its end if it is to be signed, and a header list and query parameters
  -- without a reserved name, and where the date with a zero byte, the names and the front of the
  -- canonical request have room in their buffers, building the canonical request succeeds: it has the
  -- method, the canonical path, the query by name and then by value, the header lines and the signed
  -- names, and the digest of the payload, of no bytes with body signing off, or "UNSIGNED-PAYLOAD" if
  -- the configuration says so. The later stages find the names, the scope and the date in the state, and
  -- the string to sign as it was; the signing result has gained the hash as a header under header auth,
  -- and the encoded authorization parameters under query parameter auth.
  pub build_canonical_request-text :
      (s : State) (uri_cursor method : Bytes) (uri : Uri) (ps : List UriParam) (hs : List Header)
      (payload_stream : Option Stream) (chunks : List Bytes)
      → IsSupported s.config.algorithm
      → IsFresh s
      → s.signable.get_property http_uri_property ≡ ok uri_cursor
      → c.uri_init_parse uri_cursor ≡ ok uri
      → s.signable.get_property http_method_property ≡ ok method
      → s.signable.get_payload_stream ≡ ok payload_stream
      → Signed s.config.body_signing_type payload_stream chunks
      → s.signable.get_property_list http_headers_list ≡ ok hs
      → validate_signable_header_list c hs ≡ ok tt
      → c.uri_query_string_params uri ≡ ok ps
      → validate_query_params c ps ≡ ok tt
      → FitsWithEnd s.date (d.date_str s.config.date)
      → Fits s.signed_headers (signed_text c (sorted_headers c d (dated c d s chunks) hs))
      → Fits s.canonical_request (front_text c d (dated c d s chunks) method uri ps hs)
      → Returns (build_canonical_request c s) (λ r.
        (r.canonical_request.bytes
          ≡ front_text c d (dated c d s chunks) method uri ps hs
            ++ (dated c d s chunks).payload_hash.bytes)
        × Settled c d (dated c d s chunks) hs r)
  unfolding build_canonical_request build_canonical_request_sigv4
  build_canonical_request-text s uri_cursor method uri ps hs p chunks supported fresh got_uri parsed
        got_method got_payload signed listed valid params valid_params date_fits signed_fits fits =
      let t = dated c d s chunks in
      rw
        (
          dispatch-IsSupported s.config.algorithm (build_canonical_request_sigv4 c s) supported,
          got_uri,
          parsed,
          d.date_str_eq s.config.date s.date date_fits,
          payload_hash-with_digest c d
              (record s {
                date = record s.date { bytes = s.date.bytes ++ d.date_str s.config.date };
              })
              p chunks got_payload signed,
        )
        (stages-text t method uri ps hs supported fresh got_method listed valid params valid_params
          signed_fits fits)
