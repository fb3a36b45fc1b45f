-- ===== src/Signing/Request/Middle.antt =====
-- The stages of the canonical request from the method on.
use aws_c_auth.Common.{
  ◌≤◌, List, [], ◌∷◌, ◌++◌, append_assoc, Bytes, codes, length, length-append, ◌≡◌, refl, ap, ◌∙◌,
  ok, ◌>>=◌, Returns, Returns-bind, Returns-map, arith,
}
use aws_c_auth.External.{ByteBuf, Uri, UriParam, Library, Documented}
use aws_c_auth.Signing.Buffers.{Fits}
use aws_c_auth.Signing.Config.{Config}
use aws_c_auth.Signing.Outcome.{SigningResult}
use aws_c_auth.Signing.Outcome.Lists.{contents}
use aws_c_auth.Signing.State.{
  State, Header, Signable, Credentials, http_method_property, http_headers_list,
  http_query_params_list,
}
use aws_c_auth.Signing.Path.Canonical.{canonical_path, append_canonical_path-text}
use aws_c_auth.Signing.Query.{validate_query_params, append_canonical_query_string}
use aws_c_auth.Signing.Query.Order.{query_text}
use aws_c_auth.Signing.Query.Canonical.{
  sorted_params, sorted_params-same, added_params, added_params-same,
  append_canonical_query_string-Extended,
}
use aws_c_auth.Signing.Headers.Groups.{signed_text}
use aws_c_auth.Signing.Headers.Canonical.{sorted_headers}
use aws_c_auth.Signing.Payload.{append_canonical_payload_hash}
use aws_c_auth.Signing.Path.{append_canonical_path}
use aws_c_auth.Signing.Request.{append_canonical_method, append_header_block}
use aws_c_auth.Signing.Request.Scope.{scope_text}
use aws_c_auth.Signing.Request.Stages.{
  hash_headers, append_canonical_method-text, append_header_block-text,
  append_canonical_payload_hash-text,
}
use aws_c_auth.Signing.Request.Front.{front_of, described}

pub scope_from : {b b' text text' : Bytes} → b' ≡ b ++ text → b ≡ [] → text ≡ text' → b' ≡ text'
scope_from e nil same = rw (e, nil) same

three_pieces :
    {b b5 b6 b7 : Bytes} (m : Bytes) {p p' q q' : Bytes}
    → p' ≡ p
    → q' ≡ q
    → b ≡ []
    → b5 ≡ b ++ m
    → b6 ≡ b5 ++ p'
    → b7 ≡ b6 ++ q'
    → b7 ≡ m ++ (p ++ q)
three_pieces m {p} {q = q} ep eq nil e5 e6 e7 = rw (e7, e6, e5, nil, ep, eq) (append_assoc m p q)

-- what the stages behind the headers do not touch
unfoldable pub kept :
    State → Config × Signable × Credentials × ByteBuf × ByteBuf × ByteBuf × ByteBuf × ByteBuf
kept s = (
  s.config, s.signable, s.credentials, s.signed_headers, s.canonical_header_block, s.payload_hash,
  s.date, s.string_to_sign,
)

unfoldable pub kept_by_headers :
    State
    → Config × Signable × Credentials × ByteBuf × ByteBuf × ByteBuf × ByteBuf × ByteBuf × ByteBuf
      × SigningResult
kept_by_headers s = (
  s.config, s.signable, s.credentials, s.payload_hash, s.date, s.canonical_request,
  s.credential_scope, s.access_credential_scope, s.string_to_sign, s.result,
)

module _ (c : Library) (d : Documented c) where
  unfoldable pub scope_text_by : Config → Bytes
  scope_text_by config =
      d.short_date_str config.date
      ++ (b'/' ∷ (config.region ++ (b'/' ∷ (config.service ++ (b'/' ∷ codes "aws4_request")))))

  pub front-same :
      (s r : State) (method : Bytes) (uri : Uri) (ps : List UriParam) {block block' : Bytes}
      → s.config ≡ r.config
      → block ≡ block'
      → sorted_params c d s ps ≡ sorted_params c d r ps
      → front_of c d s method uri ps block ≡ front_of c d r method uri ps block'
  front-same s r method uri ps config e params =
      rw (ap (λ k. canonical_path c d k uri.path) config, ap (query_text c d) params, e) refl

  -- what the stages do besides writing: under header auth the hash goes into the
  -- signing result
  abbrev pub Alike : State → State → Type 0
  Alike s r =
      (kept r ≡ kept s)
      × (r.credential_scope ≡ s.credential_scope)
      × (contents r.result http_headers_list
          ≡ contents s.result http_headers_list ++ hash_headers c d s)
      × (contents r.result http_query_params_list
          ≡ contents s.result http_query_params_list ++ added_params c d s)

  -- the state in which the canonical request is, as far as the next stages read it
  abbrev pub Settled : State → List Header → State → Type 0
  Settled t hs r =
      (r.config ≡ t.config)
      × (r.credentials ≡ t.credentials)
      × (r.date ≡ t.date)
      × (r.string_to_sign ≡ t.string_to_sign)
      × (r.signed_headers.bytes ≡ signed_text c (sorted_headers c d t hs))
      × (r.credential_scope.bytes ≡ scope_text c d t)
      × (contents r.result http_headers_list
          ≡ contents t.result http_headers_list ++ hash_headers c d t)
      × (contents r.result http_query_params_list
          ≡ contents t.result http_query_params_list ++ added_params c d (described c d t hs))

  -- the last two stages, behind the front
  end-text :
      (s : State) (front block hash : Bytes)
      → s.canonical_request.bytes ≡ front
      → s.canonical_header_block.bytes ≡ block
      → s.payload_hash.bytes ≡ hash
      → length (front ++ block) ≤ s.canonical_request.capacity
      → Returns (append_header_block c s >>= (λ r. append_canonical_payload_hash c r)) (λ r.
        (r.canonical_request.bytes ≡ (front ++ block) ++ hash)
        × (kept r ≡ kept s)
        × (r.credential_scope ≡ s.credential_scope)
        × (contents r.result http_headers_list
            ≡ contents s.result http_headers_list ++ hash_headers c d s)
        × (contents r.result http_query_params_list ≡ contents s.result http_query_params_list))
  unfolding kept
  end-text s front block hash e_front e_block e_hash fits =
      Returns-bind _ _ _ _
        (append_header_block-text c d s
          (omega (arith, fits, ap length e_front, ap length e_block, length-append front block)))
        (λ r h. Returns-map _ _ (append_canonical_payload_hash-text c d r) (λ q g.
          let same = ap kept h.0 in
          (
            g.1 ∙ rw (ap (λ k. k.5) same, e_hash, h.1, e_front, e_block) refl,
            ap kept g.0 ∙ same,
            ap (λ x. x.credential_scope) g.0 ∙ ap (λ x. x.credential_scope) h.0,
            g.2 ∙ ap (λ x. contents x.result http_headers_list ++ hash_headers c d x) h.0,
            g.3 ∙ ap (λ x. contents x.result http_query_params_list) h.0,
          )))

  -- from the method on
  pub middle-text :
      (s : State) (method : Bytes) (uri : Uri) (ps : List UriParam)
      → s.signable.get_property http_method_property ≡ ok method
      → c.uri_query_string_params uri ≡ ok ps
      → validate_query_params c ps ≡ ok tt
      → s.canonical_request.bytes ≡ []
      → Fits s.canonical_request (front_of c d s method uri ps s.canonical_header_block.bytes)
      → Returns
          (append_canonical_method c s >>= (λ s5. append_canonical_path c uri s5 >>= (λ s6.
            append_canonical_query_string c uri s6
            >>= (λ s7. append_header_block c s7 >>= (λ s8. append_canonical_payload_hash c s8)))))
          (λ r.
            (r.canonical_request.bytes
              ≡ front_of c d s method uri ps s.canonical_header_block.bytes ++ s.payload_hash.bytes)
            × Alike s r)
  unfolding kept
  middle-text s method uri ps got_method params valid_params empty fits =
      let m : Bytes = method ++ b'\n' ∷ [] in
      let p : Bytes = canonical_path c d s.config uri.path ++ b'\n' ∷ [] in
      let q : Bytes = query_text c d (sorted_params c d s ps) ++ b'\n' ∷ [] in
      let block = s.canonical_header_block.bytes in
      Returns-bind _ _ _ _ (append_canonical_method-text c d s method got_method) (λ s5 h5.
        let e5 : kept s5 ≡ kept s = ap kept h5.0 in
        Returns-bind _ _ _ _ (append_canonical_path-text c d uri s5) (λ s6 h6.
          let e6 : kept s6 ≡ kept s = ap kept h6.0 ∙ e5 in
          let access =
            ap (λ x. x.access_credential_scope.bytes) h6.0
            ∙ ap (λ x. x.access_credential_scope.bytes) h5.0 in
          Returns-bind _ _ _ _
            (append_canonical_query_string-Extended c d uri s6 ps params valid_params)
            (λ s7 h7.
              let e7 : kept s7 ≡ kept s = ap kept h7.0 ∙ e6 in
              let path_same = ap (λ k. canonical_path c d k.0 uri.path ++ b'\n' ∷ []) e5 in
              let query_same : query_text c d (sorted_params c d s6 ps) ++ b'\n' ∷ [] ≡ q =
                ap (λ l. query_text c d l ++ b'\n' ∷ [])
                  (sorted_params-same c d s6 s ps (ap (λ k. k.0) e6) (ap (λ k. k.2) e6)
                    (ap (λ k. k.6.bytes) e6) access (ap (λ k. k.3.bytes) e6)) in
              let front : s7.canonical_request.bytes ≡ m ++ (p ++ q) =
                three_pieces m path_same query_same empty h5.1 h6.1 h7.1 in
              let whole : (m ++ (p ++ q)) ++ block ≡ m ++ (p ++ (q ++ block)) = simp append_assoc in
              Returns-map _ _
                (end-text s7 (m ++ (p ++ q)) block s.payload_hash.bytes front
                  (ap (λ k. k.4.bytes) e7) (ap (λ k. k.5.bytes) e7)
                  (omega (arith, ap length whole, fits, ap length empty, h5.2, h6.2, h7.2)))
                (λ r h. (
                  h.0 ∙ ap (λ l. l ++ s.payload_hash.bytes) whole,
                  (
                    h.1 ∙ e7,
                    h.2
                        ∙ (ap (λ x. x.credential_scope) h7.0
                            ∙ (ap (λ x. x.credential_scope) h6.0
                                ∙ ap (λ x. x.credential_scope) h5.0)),
                    h.3
                        ∙ rw
                            (
                              h7.4,
                              ap (λ x. x.result) h6.0,
                              ap (λ x. x.result) h5.0,
                              ap (λ k. k.0) e7,
                              ap (λ k. k.5) e7,
                            )
                            refl,
                    h.4
                        ∙ (h7.3
                            ∙ rw
                                (
                                  ap (λ x. x.result) h6.0,
                                  ap (λ x. x.result) h5.0,
                                  added_params-same c d s6 s (ap (λ k. k.0) e6) (ap (λ k. k.2) e6)
                                      (ap (λ k. k.6.bytes) e6) access (ap (λ k. k.3.bytes) e6),
                                )
                                refl),
                  ),
                )))))
