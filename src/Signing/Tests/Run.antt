-- ===== src/Signing/Tests/Run.antt =====
-- A whole run of the signing process on a sample request.
use aws_c_auth.Common.{false, List, some, Bytes, ok, ◌≡◌, refl}
use aws_c_auth.External.{Uri, UriParam}
use aws_c_auth.External.Example.{sample}
use aws_c_auth.Signing.Outcome
use aws_c_auth.Signing.Outcome.{SigningResult}
use aws_c_auth.Signing.State.{Header, http_headers_list, http_uri_property}
use mathlib.Core.List.{Perm}
use aws_c_auth.Common.Sort.Laws.{Chain}
use aws_c_auth.External.Example.{sample_documented}
use aws_c_auth.Common.{Returns, ◌++◌, ◌∷◌, []}
use aws_c_auth.Signing.Query.Order.{InOrder, query_text, append_canonical_query_string-text}
use aws_c_auth.Signing.Sign.{Completion, completed, failed, on_get_credentials}
use aws_c_auth.Signing.Sign.Reserved.{
  any_reserved_header, any_reserved_param, on_get_credentials-unreserved,
}
use aws_c_auth.Signing.Tests.{request, header_state, keys}
use aws_c_auth.Signing.Sign.{run_stages}
use aws_c_auth.Signing.Request.{
  build_canonical_request, build_canonical_request_sigv4, append_canonical_method,
  append_canonical_request_hash, append_credential_scope_terminator, append_header_block,
  build_credential_scope, build_string_to_sign, build_string_to_sign_4,
}
use aws_c_auth.Signing.State.{
  dispatch, table_has, append_character, append_signing_algorithm, get_signing_algorithm_cursor,
  should_sign_param,
}
use aws_c_auth.Common.{all, codes, any, bytes_eq, find, put}
use aws_c_auth.Signing.Payload.{
  build_canonical_payload_hash, build_hashed_payload, hash_payload, hash_stream,
  append_canonical_payload_hash,
}
use aws_c_auth.External.Example.{
  grow, lower, capacity_of, prepend, split, left_trim, right_trim, sum, compare_bytes, digit,
  hex_of, encode, param_of, uri_of, query_params,
}
use aws_c_auth.Signing.Headers.{
  build_canonical_headers, validate_signable_header_list, build_canonical_stable_header_list,
  add_header, add_security_token_header, append_canonical_header, append_canonical_headers,
  append_header_lines, append_header_name, canonical_header_comparator, collect_headers,
  is_new_name, is_space, raw_write, wrap_signable_header, wrap_signable_headers, write_squashed,
}
use aws_c_auth.Common.Sort.{insert_sorted, qsort}
use aws_c_auth.Signing.Authorization.{
  add_authorization_to_result, add_session_token_to_result, append_authorization_header_preamble,
  append_signature_value, append_sigv4_signature_value, build_authorization_value,
  compute_sigv4_signing_key,
}
use aws_c_auth.Signing.Config.{is_header_auth, is_query_param_auth, signs_body}
use aws_c_auth.Signing.Outcome.{append_property_list, get_or_create_property_list}
use aws_c_auth.Signing.Path.{
  append_canonical_path, append_components, append_normalized_path, ends_with_slash, is_parent,
  is_redundant, normalize_components, normalize_step, pop_back,
}
use aws_c_auth.Signing.Query.{
  add_authorization_query_param_with_encoding, add_authorization_query_params,
  add_required_query_params, add_security_token_query_param, append_canonical_query_param,
  append_canonical_query_string, append_query_params, canonical_query_param_comparator,
  validate_query_params,
}

abbrev result_of : Completion → SigningResult
result_of (completed r) = r
result_of (failed e) = Outcome.init

signed_result :
    on_get_credentials sample header_state (some keys)
    ≡ completed (result_of (on_get_credentials sample header_state (some keys)))
unfolding on_get_credentials run_stages build_canonical_request dispatch
    build_canonical_request_sigv4 codes build_canonical_payload_hash build_hashed_payload
    hash_payload hash_stream grow build_canonical_headers validate_signable_header_list table_has
    any bytes_eq lower build_canonical_stable_header_list insert_sorted qsort find put capacity_of
    add_authorization_to_result add_session_token_to_result append_authorization_header_preamble
    append_signature_value append_sigv4_signature_value build_authorization_value
    compute_sigv4_signing_key is_header_auth is_query_param_auth signs_body add_header
    add_security_token_header append_canonical_header append_canonical_headers append_header_lines
    append_header_name canonical_header_comparator collect_headers is_new_name is_space raw_write
    wrap_signable_header wrap_signable_headers write_squashed append_property_list
    get_or_create_property_list append_canonical_path append_components append_normalized_path
    ends_with_slash is_parent is_redundant normalize_components normalize_step pop_back
    append_canonical_payload_hash add_authorization_query_param_with_encoding
    add_authorization_query_params add_required_query_params add_security_token_query_param
    append_canonical_query_param append_canonical_query_string append_query_params
    canonical_query_param_comparator validate_query_params append_canonical_method
    append_canonical_request_hash append_credential_scope_terminator append_header_block
    build_credential_scope build_string_to_sign build_string_to_sign_4 append_character
    append_signing_algorithm get_signing_algorithm_cursor should_sign_param prepend split left_trim
    right_trim sum compare_bytes digit hex_of encode param_of uri_of query_params all
signed_result = refl

unreserved_example :
    (hs : List Header) × (uri_text : Bytes) × (uri : Uri) × (ps : List UriParam)
    × (request.get_property_list http_headers_list ≡ ok hs)
    × (any_reserved_header sample hs ≡ false)
    × (request.get_property http_uri_property ≡ ok uri_text)
    × (sample.uri_init_parse uri_text ≡ ok uri)
    × (sample.uri_query_string_params uri ≡ ok ps)
    × (any_reserved_param sample ps ≡ false)
unreserved_example =
    on_get_credentials-unreserved sample header_state (some keys)
      (result_of (on_get_credentials sample header_state (some keys))) signed_result

abbrev sample_uri : Uri
sample_uri = record { path = codes "/"; query_string = codes "b=2&a=1" }

abbrev sample_params : List UriParam
sample_params =
    record { key = codes "b"; value = codes "2" }
    ∷ record { key = codes "a"; value = codes "1" }
    ∷ []

params_parsed : sample.uri_query_string_params sample_uri ≡ ok sample_params
unfolding query_params param_of split prepend codes
params_parsed = refl

params_valid : validate_query_params sample sample_params ≡ ok tt
unfolding validate_query_params table_has any bytes_eq codes lower
params_valid = refl

params_added :
    add_authorization_query_params sample header_state sample_params
    ≡ ok (header_state, sample_params)
unfolding add_authorization_query_params is_query_param_auth
params_added = refl

query_example :
    (sorted : List UriParam) × Perm sample_params sorted
    × Chain (InOrder sample sample_documented) sorted
    × Returns (append_canonical_query_string sample sample_uri header_state) (λ r.
      r.canonical_request.bytes ≡ [] ++ (query_text sample sample_documented sorted ++ b'\n' ∷ []))
query_example =
    append_canonical_query_string-text sample sample_documented sample_uri header_state header_state
      sample_params sample_params params_parsed params_valid params_added
