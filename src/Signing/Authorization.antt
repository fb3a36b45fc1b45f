-- ===== src/Signing/Authorization.antt =====
-- The signing key, the signature and the authorization value (source/aws_signing.c:1554-1872).
pub mod Key
pub mod Value
use aws_c_auth.Common.{
  ◌+◌, [], Option, none, some, Bytes, codes, length, if◌then◌else◌, Result, ok, err, unraised,
  ◌>>=◌,
}
use aws_c_auth.External.{ByteBuf, buf_init, Library}
use aws_c_auth.Signing.Config.{is_header_auth, is_query_param_auth}
use aws_c_auth.Signing.Outcome.{append_property_list}
use aws_c_auth.Signing.State.{
  State, append_character, append_signing_algorithm, dispatch, authorization_header_name,
  authorization_query_param_name, date_name, security_token_name, http_headers_list,
  http_query_params_list,
}
use aws_c_auth.Signing.Request.{scope_terminator}

module _ (c : Library) where
  -- s_compute_sigv4_signing_key. `output` is one buffer whose contents are dropped before each use,
  -- so a cursor to the old contents is read as the new ones are computed: the library computes the
  -- code before it writes it.
  unfoldable pub compute_sigv4_signing_key : State → ByteBuf → Result ByteBuf
  compute_sigv4_signing_key state dest = do
    let config = state.config
    let prefix = codes "AWS4"
    secret_key ←
        c.append_dynamic (buf_init (length prefix + length state.credentials.secret_access_key))
          prefix
    secret_key ← c.append_dynamic secret_key state.credentials.secret_access_key
    date ← c.date_time_to_utc_time_short_str config.date (buf_init c.date_time_str_max_len)
    output ← c.sha256_hmac_compute secret_key.bytes date.bytes (buf_init c.sha256_len)
    output ← c.sha256_hmac_compute output.bytes config.region (record output { bytes = [] })
    output ← c.sha256_hmac_compute output.bytes config.service (record output { bytes = [] })
    c.sha256_hmac_compute output.bytes scope_terminator dest

  -- s_append_sigv4_signature_value
  unfoldable pub append_sigv4_signature_value : State → ByteBuf → Result ByteBuf
  append_sigv4_signature_value state dest = do
    key ← compute_sigv4_signing_key state (buf_init c.sha256_len)
    digest ← c.sha256_hmac_compute key.bytes state.string_to_sign.bytes (buf_init c.sha256_len)
    c.hex_encode_append_dynamic digest.bytes dest

  -- s_append_signature_value
  unfoldable pub append_signature_value : State → ByteBuf → Result ByteBuf
  append_signature_value state dest =
      dispatch state.config.algorithm (append_sigv4_signature_value state dest)

  -- s_add_authorization_to_result
  unfoldable pub add_authorization_to_result : State → Bytes → Result State
  add_authorization_to_result state value =
      if is_header_auth state.config.algorithm
      then ok (record state {
        result =
            append_property_list state.result http_headers_list authorization_header_name value;
      })
      else if is_query_param_auth state.config.algorithm
      then ok (record state {
        result =
            append_property_list state.result http_query_params_list authorization_query_param_name
              value;
      })
      else err unraised

  -- s_append_authorization_header_preamble
  unfoldable pub append_authorization_header_preamble : State → ByteBuf → Result ByteBuf
  append_authorization_header_preamble state dest = do
    dest ← append_signing_algorithm c state.config.algorithm dest
    dest ← c.append_dynamic dest (codes " Credential=")
    dest ← c.append_dynamic dest state.credentials.access_key_id
    dest ← append_character c dest b'/'
    dest ← c.append_dynamic dest state.credential_scope.bytes
    dest ← c.append_dynamic dest (codes ", SignedHeaders=")
    dest ← c.append_dynamic dest state.signed_headers.bytes
    c.append_dynamic dest (codes ", Signature=")

  -- the security token in the signing result
  unfoldable pub add_session_token_to_result : State → Option Bytes → Result State
  add_session_token_to_result state none = ok state
  add_session_token_to_result state (some token) =
      if is_query_param_auth state.config.algorithm
      then (do
        encoded ← c.append_encoding_uri_param (buf_init (length token)) token
        ok (record state {
          result =
              append_property_list state.result http_query_params_list security_token_name
                encoded.bytes;
        }))
      else ok (record state {
        result = append_property_list state.result http_headers_list security_token_name token;
      })

  -- aws_signing_build_authorization_value
  unfoldable pub build_authorization_value : State → Result State
  build_authorization_value state = do
    value ←
        if is_header_auth state.config.algorithm
        then append_authorization_header_preamble state (buf_init 512)
        else ok (buf_init 512)
    value ← append_signature_value state value
    state' ← add_authorization_to_result state value.bytes
    let dated = record state' {
      result = append_property_list state'.result http_headers_list date_name state.date.bytes;
    }
    add_session_token_to_result dated state.credentials.session_token
