-- ===== src/Http/Tests.antt =====
-- Runs of signed requests.
use aws_c_auth.Common.{
  true, List, [], ◌∷◌, ◌++◌, map, none, some, Bytes, codes, bytes_eq, bytes_eq_refl, find, put, ◌≡◌,
  ◌≢◌, refl, Result, ok, err, ◌>>=◌, sym, ap, ◌∙◌,
}
use aws_c_auth.External.{Uri, UriParam}
use aws_c_auth.External.Example.{
  sample, sample_documented, encode, grow, lower, capacity_of, prepend, split, sum, digit, hex_of,
  param_of, uri_of, query_params,
}
use aws_c_auth.Signing.Outcome
use aws_c_auth.Signing.Outcome.{
  Property, SigningResult, append_property_list, get_or_create_property_list, get_property_list,
}
use aws_c_auth.Signing.Config.{is_header_auth, is_query_param_auth}
use aws_c_auth.Signing.State.{
  State, http_query_params_list, dispatch, append_character, append_signing_algorithm,
  get_signing_algorithm_cursor,
}
use aws_c_auth.Signing.Authorization.{
  add_authorization_to_result, add_session_token_to_result, append_authorization_header_preamble,
  append_signature_value, append_sigv4_signature_value, build_authorization_value,
  compute_sigv4_signing_key,
}
use aws_c_auth.Signing.Sign.{completed, on_get_credentials}
use aws_c_auth.Signing.Outcome.Lists.{contents}
use aws_c_auth.Signing.Tests.{header_state, query_state, keys}
use aws_c_auth.Http.{
  Message, add_headers, signed_params, build_request_uri, apply_signing_result_to_http_request,
  signable_new_http_request,
}
use aws_c_auth.Http.Signed.{signed_message-refused}
use aws_c_auth.Http.Presigned.{presigned_message-refused}

abbrev message : Message
message = record {
  method = codes "GET";
  path = codes "/";
  headers = record { name = codes "Host"; value = codes "example.com" } ∷ [];
  body_stream = none;
}

abbrev plain_builder : Uri → List UriParam → Result Bytes
plain_builder uri params = ok uri.path

abbrev message_of : Result Message → Message
message_of (ok m) = m
message_of (err e) = message

abbrev signed_message : Result Message
signed_message = build_authorization_value sample header_state >>= λ r.
    apply_signing_result_to_http_request sample plain_builder message r.result

signs : signed_message ≡ ok (message_of signed_message)
unfolding build_authorization_value apply_signing_result_to_http_request is_header_auth
    append_authorization_header_preamble append_signing_algorithm get_signing_algorithm_cursor grow
    append_character append_signature_value dispatch append_sigv4_signature_value
    compute_sigv4_signing_key codes add_authorization_to_result add_session_token_to_result
    is_query_param_auth build_request_uri get_property_list find bytes_eq put capacity_of
    add_headers signed_params append_property_list get_or_create_property_list
signs = refl

eq_ignore_case_same : (name : Bytes) → sample.eq_ignore_case name name ≡ true
eq_ignore_case_same name = bytes_eq_refl (map lower name)

refused_again_example :
    on_get_credentials sample
      (record header_state { signable = signable_new_http_request (message_of signed_message) })
      (some keys)
    ≢ completed Outcome.init
refused_again_example =
    signed_message-refused sample plain_builder sample_documented header_state header_state message
      (message_of signed_message) (some keys) Outcome.init eq_ignore_case_same refl signs

-- a builder that joins the parameters as they are
abbrev joined_params : List UriParam → Bytes
joined_params [] = []
joined_params (p ∷ []) = p.key ++ b'=' ∷ p.value
joined_params (p ∷ q ∷ ps) = p.key ++ (b'=' ∷ p.value) ++ b'&' ∷ joined_params (q ∷ ps)

abbrev joining_builder : Uri → List UriParam → Result Bytes
joining_builder uri params = ok (uri.path ++ b'?' ∷ joined_params params)

abbrev query_message : Message
query_message = record message { path = codes "/?a=1" }

abbrev query_uri : Uri
query_uri = record { path = codes "/"; query_string = codes "a=1" }

abbrev query_old : List UriParam
query_old = record { key = codes "a"; value = codes "1" } ∷ []

abbrev state_of : Result State → State
state_of (ok s) = s
state_of (err e) = query_state

abbrev query_signed : State
query_signed = state_of (build_authorization_value sample query_state)

query_signs : build_authorization_value sample query_state ≡ ok query_signed
unfolding build_authorization_value is_header_auth append_authorization_header_preamble
    append_signing_algorithm get_signing_algorithm_cursor grow append_character
    append_signature_value dispatch append_sigv4_signature_value compute_sigv4_signing_key codes
    add_authorization_to_result add_session_token_to_result is_query_param_auth
query_signs = refl

abbrev all_query_params : List UriParam
all_query_params = query_old ++ signed_params (contents query_signed.result http_query_params_list)

abbrev built_text : Bytes
built_text = codes "/" ++ b'?' ∷ joined_params all_query_params

abbrev built_uri : Uri
built_uri = record { path = codes "/"; query_string = joined_params all_query_params }

query_uri_parsed : sample.uri_init_parse query_message.path ≡ ok query_uri
unfolding split prepend uri_of codes
query_uri_parsed = refl

query_old_parsed : sample.uri_query_string_params query_uri ≡ ok query_old
unfolding split prepend param_of query_params codes
query_old_parsed = refl

built_parsed : sample.uri_init_parse built_text ≡ ok built_uri
unfolding split prepend uri_of codes signed_params build_authorization_value is_header_auth
    append_authorization_header_preamble append_signing_algorithm get_signing_algorithm_cursor grow
    append_character append_signature_value dispatch append_sigv4_signature_value
    compute_sigv4_signing_key add_authorization_to_result add_session_token_to_result
    is_query_param_auth get_property_list find bytes_eq put capacity_of append_property_list
    get_or_create_property_list hex_of digit sum encode
built_parsed = refl

built_params : sample.uri_query_string_params built_uri ≡ ok all_query_params
unfolding split prepend param_of query_params codes signed_params build_authorization_value
    is_header_auth append_authorization_header_preamble append_signing_algorithm
    get_signing_algorithm_cursor grow append_character append_signature_value dispatch
    append_sigv4_signature_value compute_sigv4_signing_key add_authorization_to_result
    add_session_token_to_result is_query_param_auth get_property_list find bytes_eq put capacity_of
    append_property_list get_or_create_property_list hex_of digit sum encode
built_params = refl

joining_builder-parses :
    (text : Bytes)
    → joining_builder query_uri all_query_params ≡ ok text
    → (built : Uri) × (sample.uri_init_parse text ≡ ok built)
      × (sample.uri_query_string_params built ≡ ok all_query_params)
joining_builder-parses text e =
    let same : built_text ≡ text = cc e in
    (built_uri, ap sample.uri_init_parse (sym same) ∙ built_parsed, built_params)

abbrev presigned_message : Result Message
presigned_message =
    apply_signing_result_to_http_request sample joining_builder query_message query_signed.result

presigns : presigned_message ≡ ok (message_of presigned_message)
unfolding apply_signing_result_to_http_request build_request_uri add_headers signed_params codes
    split prepend uri_of param_of query_params build_authorization_value is_header_auth
    append_authorization_header_preamble append_signing_algorithm get_signing_algorithm_cursor grow
    append_character append_signature_value dispatch append_sigv4_signature_value
    compute_sigv4_signing_key add_authorization_to_result add_session_token_to_result
    is_query_param_auth get_property_list find bytes_eq put capacity_of append_property_list
    get_or_create_property_list hex_of digit sum encode
presigns = refl

presigned_again_example :
    on_get_credentials sample
      (record header_state { signable = signable_new_http_request (message_of presigned_message) })
      (some keys)
    ≢ completed Outcome.init
presigned_again_example =
    presigned_message-refused sample joining_builder sample_documented query_state header_state
      query_signed query_message (message_of presigned_message) (some keys) Outcome.init query_uri
      query_old eq_ignore_case_same refl query_signs query_uri_parsed query_old_parsed
      joining_builder-parses presigns
