-- ===== src/Signing/Request/Stages.antt =====
-- The stages that write into the canonical request, each by what it appends and what it keeps.
use aws_c_auth.Common.{
  ◌+◌, [], ◌∷◌, ◌++◌, List, append-nil, sym, bytes_eq_refl, ◌∙◌, if◌then◌else◌, Bytes, length, leb,
  true, ◌≡◌, refl, ok, Returns, returns, arith, Bool-cases, inl, inr,
}
use aws_c_auth.External.{Library, Documented}
use aws_c_auth.Signing.Buffers.{Fits, Extended, line-Extended, append_dynamic-text}
use aws_c_auth.Signing.Config.{is_header_auth}
use aws_c_auth.Signing.State.{
  State, http_method_property, http_headers_list, http_query_params_list, content_header_name,
}
use aws_c_auth.Signing.Outcome.{Property}
use aws_c_auth.Signing.Outcome.Lists.{contents, contents-append_property_list}
use aws_c_auth.Signing.Authorization.Value.{property, headers-params}
use aws_c_auth.Signing.Payload.{append_canonical_payload_hash}
use aws_c_auth.Signing.Request.{append_canonical_method, append_header_block}

module _ (c : Library) (d : Documented c) where
  pub append_canonical_method-text :
      (s : State) (method : Bytes)
      → s.signable.get_property http_method_property ≡ ok method
      → Returns (append_canonical_method c s) (Extended s (method ++ b'\n' ∷ []))
  unfolding append_canonical_method
  append_canonical_method-text s method got =
      rw got (line-Extended c d s _ method (append_dynamic-text c d s.canonical_request method))

  pub append_header_block-text :
      (s : State)
      → Fits s.canonical_request s.canonical_header_block.bytes
      → Returns (append_header_block c s) (Extended s s.canonical_header_block.bytes)
  unfolding append_header_block
  append_header_block-text s fits =
      let block = s.canonical_header_block.bytes in
      let room : leb (length s.canonical_request.bytes + length block) s.canonical_request.capacity
          ≡ true =
        ground (arith, fits) in
      rw (d.append_eq s.canonical_request block, room) (returns _ _ (refl, refl, omega arith))

  -- under header auth the hash goes into the signing result too
  abbrev pub hash_headers : State → List Property
  hash_headers s =
      if is_header_auth s.config.algorithm
      then property content_header_name s.payload_hash.bytes ∷ []
      else []

  pub append_canonical_payload_hash-text :
      (s : State)
      → Returns (append_canonical_payload_hash c s) (λ r.
        (r ≡ record s { result = r.result; canonical_request = r.canonical_request })
        × (r.canonical_request.bytes ≡ s.canonical_request.bytes ++ s.payload_hash.bytes)
        × (contents r.result http_headers_list
            ≡ contents s.result http_headers_list ++ hash_headers s)
        × (contents r.result http_query_params_list ≡ contents s.result http_query_params_list))
  unfolding append_canonical_payload_hash
  append_canonical_payload_hash-text s =
      let headers =
        contents-append_property_list s.result http_headers_list http_headers_list
          content_header_name s.payload_hash.bytes in
      let params =
        contents-append_property_list s.result http_headers_list http_query_params_list
          content_header_name s.payload_hash.bytes in
      elim (Bool-cases (is_header_auth s.config.algorithm)) [
        | inl e ↦
            rw (d.append_dynamic_eq s.canonical_request s.payload_hash.bytes, e)
              (returns _ _ (
                refl,
                refl,
                headers ∙ rw (bytes_eq_refl http_headers_list) refl,
                params ∙ rw headers-params refl,
              ))
        | inr e ↦
            rw (d.append_dynamic_eq s.canonical_request s.payload_hash.bytes, e)
              (returns _ _ (refl, refl, sym (append-nil _), refl))
      ]
