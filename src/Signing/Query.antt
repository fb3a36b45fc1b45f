-- ===== src/Signing/Query.antt =====
-- The canonical query string: s_add_authorization_query_params, s_validate_query_params and
-- s_append_canonical_query_string of source/aws_signing.c.
pub mod Auth
pub mod Order
pub mod Canonical
use aws_c_auth.Common.{
  not, List, [], ◌∷◌, ◌++◌, Option, none, some, Bytes, Ordering, if◌then◌else◌, Result, ok, err,
  illegal_request_query_param, ◌>>=◌, ◌>>◌,
}
use aws_c_auth.Common.Sort.{qsort}
use aws_c_auth.External.{ByteBuf, buf_init, Uri, UriParam, Library}
use aws_c_auth.Signing.Config.{is_query_param_auth}
use aws_c_auth.Signing.Outcome.{append_property_list}
use aws_c_auth.Signing.State.{
  State, append_character, table_has, forbidden_params, should_sign_param,
  get_signing_algorithm_cursor, algorithm_query_param_name, credential_query_param_name, date_name,
  signed_headers_query_param_name, security_token_name, http_query_params_list,
}

module _ (c : Library) where
  -- s_canonical_query_param_comparator
  unfoldable pub canonical_query_param_comparator : UriParam → UriParam → Ordering
  canonical_query_param_comparator left right = elim (c.compare_lexical left.key right.key) [
    | Ordering.eq ↦ c.compare_lexical left.value right.value
    | Ordering.lt ↦ Ordering.lt
    | Ordering.gt ↦ Ordering.gt
  ]

  -- s_append_canonical_query_param
  unfoldable pub append_canonical_query_param : UriParam → ByteBuf → Result ByteBuf
  append_canonical_query_param param buffer = do
    buffer ← c.append_encoding_uri_param buffer param.key
    buffer ← append_character c buffer b'='
    c.append_encoding_uri_param buffer param.value

  -- s_add_authorization_query_param_with_encoding. The scratch buffer is emptied first, so only its
  -- capacity lives on from call to call.
  unfoldable pub add_authorization_query_param_with_encoding :
      UriParam → State × List UriParam × ByteBuf → Result (State × List UriParam × ByteBuf)
  add_authorization_query_param_with_encoding uri_param (state, query_params, uri_encoded) = do
    uri_encoded ← c.append_encoding_uri_param (record uri_encoded { bytes = [] }) uri_param.value
    let result =
        append_property_list state.result http_query_params_list uri_param.key uri_encoded.bytes
    ok (record state { result = result }, query_params ++ uri_param ∷ [], uri_encoded)

  -- the parameters that s_add_authorization_query_params adds without condition
  unfoldable pub add_required_query_params :
      State → List UriParam → Result (State × List UriParam × ByteBuf)
  add_required_query_params state query_params = do
    algorithm ← get_signing_algorithm_cursor state.config.algorithm
    acc ←
        add_authorization_query_param_with_encoding
          (record { key = algorithm_query_param_name; value = algorithm })
          (state, query_params, buf_init 256)
    acc ←
        add_authorization_query_param_with_encoding
          (record {
            key = credential_query_param_name;
            value = state.access_credential_scope.bytes;
          })
          acc
    acc ←
        add_authorization_query_param_with_encoding
          (record { key = date_name; value = state.date.bytes }) acc
    add_authorization_query_param_with_encoding
        (record { key = signed_headers_query_param_name; value = state.signed_headers.bytes }) acc

  -- the security token, for credentials that have one
  unfoldable pub add_security_token_query_param :
      Option Bytes → State × List UriParam × ByteBuf → Result (State × List UriParam)
  add_security_token_query_param none (state, query_params, _) = ok (state, query_params)
  add_security_token_query_param (some token) (state, query_params, uri_encoded) =
      if should_sign_param c state security_token_name
      then (do
        (state', query_params', _) ←
            add_authorization_query_param_with_encoding
              (record { key = security_token_name; value = token })
              (state, query_params, uri_encoded)
        ok (state', query_params'))
      else ok (state, query_params)

  -- s_add_authorization_query_params
  unfoldable pub add_authorization_query_params :
      State → List UriParam → Result (State × List UriParam)
  add_authorization_query_params state query_params =
      if not (is_query_param_auth state.config.algorithm) then ok (state, query_params) else do
        acc ← add_required_query_params state query_params
        add_security_token_query_param state.credentials.session_token acc

  -- s_validate_query_params
  unfoldable pub validate_query_params : List UriParam → Result (Unit {0})
  validate_query_params [] = ok tt
  validate_query_params (param ∷ params) =
      if table_has c forbidden_params param.key
      then err illegal_request_query_param
      else validate_query_params params

  -- the loop that writes the sorted parameters
  unfoldable pub append_query_params : List UriParam → ByteBuf → Result ByteBuf
  append_query_params [] buffer = ok buffer
  append_query_params (param ∷ []) buffer = append_canonical_query_param param buffer
  append_query_params (param ∷ next ∷ params) buffer = do
    buffer ← append_canonical_query_param param buffer
    buffer ← append_character c buffer b'&'
    append_query_params (next ∷ params) buffer

  -- s_append_canonical_query_string
  unfoldable pub append_canonical_query_string : Uri → State → Result State
  append_canonical_query_string uri state = do
    query_params ← c.uri_query_string_params uri
    validate_query_params query_params
    (state', query_params') ← add_authorization_query_params state query_params
    let sorted = qsort canonical_query_param_comparator query_params'
    buffer ← append_query_params sorted state'.canonical_request
    buffer ← append_character c buffer b'\n'
    ok (record state' { canonical_request = buffer })
