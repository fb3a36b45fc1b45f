-- ===== src/External/Example/Tests.antt =====
-- The canonical request and the whole process at a concrete request.
use mathlib.Core.List.{Perm, flatten}
use aws_c_auth.Common.{
  List, [], ◌∷◌, ◌++◌, some, Bytes, codes, bytes_eq, any, all, arith, ◌≡◌, refl, ok, Returns,
}
use aws_c_auth.Common.Sort.{qsort, insert_sorted}
use aws_c_auth.Common.Sort.Laws.{Chain}
use aws_c_auth.External.Example.{
  sample, sample_documented, lower, split, left_trim, right_trim, compare_bytes, uri_of, hex_of,
  sum, encode, query_params, param_of, digit, prepend,
}
use aws_c_auth.Signing.Buffers.{FitsWithEnd, Fits}
use aws_c_auth.Signing.State.{
  http_headers_list, http_query_params_list, content_header_name, authorization_header_name,
  authorization_query_param_name, date_name, State, should_sign_param, table_has,
}
use aws_c_auth.Signing.Headers.{
  is_space, canonical_header_comparator, collect_headers, wrap_signable_headers,
  wrap_signable_header, add_security_token_header, add_header, build_canonical_headers,
  StableHeader, validate_signable_header_list,
}
use aws_c_auth.Signing.Headers.Groups.{join_group, groups, block_text, signed_text}
use aws_c_auth.Signing.Headers.Canonical.{
  sorted_headers, Precedes, Before, build_canonical_headers-text,
}
use aws_c_auth.Signing.Outcome.{SigningResult}
use aws_c_auth.Signing.Outcome.Lists.{contents}
use aws_c_auth.Signing.Authorization.Value.{property, token_property, authorization_text}
use aws_c_auth.Signing.Sign.{completed, on_get_credentials}
use aws_c_auth.Signing.Sign.Ready.{ready}
use aws_c_auth.Signing.Sign.Presign.{on_get_credentials-query}
use aws_c_auth.Signing.Query.Auth.{auth_params, encoded_all}
use aws_c_auth.Signing.Authorization.Key.{signature}
use aws_c_auth.Signing.Sign.Complete.{on_get_credentials-header}
use aws_c_auth.Signing.Tests.{
  keys, request_headers, header_state, query_state, body, body_chunks, body-Signed,
}
use aws_c_auth.Signing.Request.Front.{described, dated, front_text}
use aws_c_auth.Signing.Path.{
  normalize_components, normalize_step, is_redundant, is_parent, pop_back, ends_with_slash,
}
use aws_c_auth.Signing.Request.{build_canonical_request}
use aws_c_auth.Signing.Request.Middle.{Settled}
use aws_c_auth.Signing.Request.Canonical.{build_canonical_request-text}
use aws_c_auth.Signing.Query.{canonical_query_param_comparator, validate_query_params}
use aws_c_auth.External.{buf_init, Uri, UriParam}
use aws_c_auth.Signing.Config.{unsigned_payload, signs_body, is_query_param_auth}
use aws_c_auth.Signing.Payload.Digest.{no_digest}

abbrev sorted : List StableHeader
sorted = sorted_headers sample sample_documented header_state request_headers

signed_room : Fits header_state.signed_headers (signed_text sample sorted)
unfolding codes collect_headers wrap_signable_headers wrap_signable_header add_security_token_header
    add_header groups join_group canonical_header_comparator should_sign_param qsort signs_body
    is_query_param_auth table_has any bytes_eq lower compare_bytes
signed_room = omega arith

valid : validate_signable_header_list sample request_headers ≡ ok tt
unfolding validate_signable_header_list table_has any bytes_eq codes lower
valid = refl

headers_example :
    Perm (collect_headers sample header_state request_headers).0 sorted
    × Chain (Precedes sample sample_documented) sorted
    × Chain (Before sample sample_documented) (groups sample sorted)
    × Returns (build_canonical_headers sample header_state) (λ r.
      (r.signed_headers.bytes ≡ header_state.signed_headers.bytes ++ signed_text sample sorted)
      × (r.canonical_header_block.bytes
          ≡ block_text sample sorted ++ (b'\n' ∷ b'\n' ∷ (r.signed_headers.bytes ++ b'\n' ∷ [])))
      × (r ≡ record header_state {
        canonical_header_block = r.canonical_header_block;
        signed_headers = r.signed_headers;
      }))
headers_example =
    build_canonical_headers-text sample sample_documented header_state request_headers refl valid
      refl signed_room

abbrev uri : Uri
uri = record { path = codes "/a/./b/../c"; query_string = codes "x=1" }

abbrev params : List UriParam
params = record { key = codes "x"; value = codes "1" } ∷ []

parsed : sample.uri_init_parse (codes "/a/./b/../c?x=1") ≡ ok uri
unfolding uri_of split prepend codes
parsed = refl

queried : sample.uri_query_string_params uri ≡ ok params
unfolding query_params split prepend param_of codes
queried = refl

valid_params : validate_query_params sample params ≡ ok tt
unfolding validate_query_params table_has any bytes_eq codes lower
valid_params = refl

abbrev blank : State
blank = record header_state { date = buf_init 100 }

abbrev prepared : State
prepared = dated sample sample_documented blank body_chunks

date_room : FitsWithEnd blank.date (sample_documented.date_str blank.config.date)
unfolding codes sample_documented
date_room = omega arith

names_fit :
    Fits blank.signed_headers
      (signed_text sample (sorted_headers sample sample_documented prepared request_headers))
unfolding codes collect_headers wrap_signable_headers wrap_signable_header add_security_token_header
    add_header groups join_group canonical_header_comparator should_sign_param qsort signs_body
    is_query_param_auth table_has any bytes_eq lower compare_bytes
names_fit = omega arith

abbrev front : Bytes
front =
    front_text sample sample_documented prepared (codes "/a/./b/../c?x=1") uri params
      request_headers

front_room : Fits blank.canonical_request front
unfolding codes collect_headers wrap_signable_headers wrap_signable_header add_security_token_header
    add_header groups join_group canonical_header_comparator should_sign_param qsort insert_sorted
    signs_body is_query_param_auth table_has any bytes_eq lower compare_bytes sample_documented
    encode split prepend normalize_components normalize_step is_redundant is_parent pop_back
    ends_with_slash right_trim left_trim is_space all hex_of digit sum flatten
    canonical_query_param_comparator
front_room = omega arith

request_example : Returns (build_canonical_request sample blank) (λ r.
    (r.canonical_request.bytes ≡ front ++ prepared.payload_hash.bytes)
    × Settled sample sample_documented prepared request_headers r)
request_example =
    build_canonical_request-text sample sample_documented blank (codes "/a/./b/../c?x=1")
      (codes "/a/./b/../c?x=1") uri params request_headers (some body) body_chunks (λ e. cc e)
      (refl, refl, refl, refl, refl) refl parsed refl refl body-Signed refl valid queried
      valid_params date_room names_fit front_room

signed_example :
    (result : SigningResult) × (on_get_credentials sample blank (some keys) ≡ completed result)
    × (contents result http_headers_list
        ≡ contents blank.result http_headers_list
          ++ (property content_header_name prepared.payload_hash.bytes
              ∷ property authorization_header_name (
                  authorization_text sample sample_documented (
                    ready sample sample_documented prepared request_headers
                      (front ++ prepared.payload_hash.bytes)))
              ∷ property date_name prepared.date.bytes
              ∷ token_property (λ x. x) keys.session_token))
    × (contents result http_query_params_list ≡ contents blank.result http_query_params_list)
signed_example =
    on_get_credentials-header sample sample_documented blank keys (codes "/a/./b/../c?x=1")
      (codes "/a/./b/../c?x=1") uri params request_headers (some body) body_chunks refl
      (refl, refl, refl, refl, refl) refl refl parsed refl refl body-Signed refl valid queried
      valid_params date_room names_fit front_room

abbrev query_blank : State
query_blank = record query_state {
  date = buf_init 100;
  config = record query_state.config { body_signing_type = unsigned_payload };
}

abbrev query_prepared : State
query_prepared = dated sample sample_documented query_blank []

query_names :
    Fits query_blank.signed_headers
      (signed_text sample (sorted_headers sample sample_documented query_prepared request_headers))
unfolding codes collect_headers wrap_signable_headers wrap_signable_header add_security_token_header
    add_header groups join_group canonical_header_comparator should_sign_param qsort signs_body
    is_query_param_auth table_has any bytes_eq lower compare_bytes
query_names = omega arith

abbrev query_front : Bytes
query_front =
    front_text sample sample_documented query_prepared (codes "/a/./b/../c?x=1") uri params
      request_headers

query_room : Fits query_blank.canonical_request query_front
unfolding codes collect_headers wrap_signable_headers wrap_signable_header add_security_token_header
    add_header groups join_group canonical_header_comparator should_sign_param qsort insert_sorted
    signs_body is_query_param_auth table_has any bytes_eq lower compare_bytes sample_documented
    encode split prepend normalize_components normalize_step is_redundant is_parent pop_back
    ends_with_slash right_trim left_trim is_space all hex_of digit sum flatten
    canonical_query_param_comparator
query_room = omega arith

presigned_example :
    (result : SigningResult) × (on_get_credentials sample query_blank (some keys)
      ≡ completed result)
    × (contents result http_query_params_list
        ≡ (contents query_blank.result http_query_params_list
            ++ encoded_all sample sample_documented (
                auth_params sample sample_documented
                  (described sample sample_documented query_prepared request_headers)))
          ++ (property authorization_query_param_name (
                signature sample sample_documented (
                  ready sample sample_documented query_prepared request_headers
                    (query_front ++ query_prepared.payload_hash.bytes)))
              ∷ token_property sample_documented.encode_param keys.session_token))
    × (contents result http_headers_list
        ≡ contents query_blank.result http_headers_list
          ++ property date_name query_prepared.date.bytes ∷ [])
presigned_example =
    on_get_credentials-query sample sample_documented query_blank keys (codes "/a/./b/../c?x=1")
      (codes "/a/./b/../c?x=1") uri params request_headers (some body) [] refl
      (refl, refl, refl, refl, refl) refl refl parsed refl refl (no_digest _) refl valid queried
      valid_params date_room query_names query_room
