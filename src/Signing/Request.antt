-- ===== src/Signing/Request.antt =====
-- The credential scope, the canonical request and the string to sign
-- (source/aws_signing.c:1299-1551).
pub mod StringToSign
pub mod Scope
pub mod Stages
pub mod Front
pub mod Middle
pub mod Canonical
use aws_c_auth.Common.{Bytes, codes, Result, ok, err, indeterminate, ◌>>=◌}
use aws_c_auth.External.{ByteBuf, buf_init, Library}
use aws_c_auth.Signing.Config.{Algorithm}
use aws_c_auth.Signing.State.{
  State, append_character, append_signing_algorithm, dispatch, http_method_property,
  http_uri_property,
}
use aws_c_auth.Signing.Path.{append_canonical_path}
use aws_c_auth.Signing.Query.{append_canonical_query_string}
use aws_c_auth.Signing.Headers.{build_canonical_headers}
use aws_c_auth.Signing.Payload.{build_canonical_payload_hash, append_canonical_payload_hash}

abbrev pub scope_terminator : Bytes
scope_terminator = codes "aws4_request"

-- s_append_canonical_method ignores the outcome of the lookup: where it fails, the cursor that is
-- appended was never set.
abbrev method_cursor : Result Bytes → Result Bytes
method_cursor (ok method) = ok method
method_cursor (err _) = err indeterminate

module _ (c : Library) where
  -- s_append_canonical_method
  unfoldable pub append_canonical_method : State → Result State
  append_canonical_method state = do
    method ← method_cursor (state.signable.get_property http_method_property)
    buffer ← c.append_dynamic state.canonical_request method
    buffer ← append_character c buffer b'\n'
    ok (record state { canonical_request = buffer })

  -- s_append_credential_scope_terminator
  unfoldable pub append_credential_scope_terminator : Algorithm → ByteBuf → Result ByteBuf
  append_credential_scope_terminator algorithm dest =
      dispatch algorithm (c.append_dynamic dest scope_terminator)

  -- s_build_credential_scope
  unfoldable pub build_credential_scope : State → Result State
  build_credential_scope state = do
    let config = state.config
    dest ← c.reserve_relative state.credential_scope c.date_time_str_max_len
    dest ← c.date_time_to_utc_time_short_str config.date dest
    dest ← append_character c dest b'/'
    dest ← c.append_dynamic dest config.region
    dest ← append_character c dest b'/'
    dest ← c.append_dynamic dest config.service
    dest ← append_character c dest b'/'
    dest ← append_credential_scope_terminator config.algorithm dest
    access ← c.append_dynamic state.access_credential_scope state.credentials.access_key_id
    access ← append_character c access b'/'
    access ← c.append_dynamic access dest.bytes
    ok (record state { credential_scope = dest; access_credential_scope = access })

  -- the header block goes into the canonical request by the append that does not grow the buffer
  unfoldable pub append_header_block : State → Result State
  append_header_block state = do
    buffer ← c.append state.canonical_request state.canonical_header_block.bytes
    ok (record state { canonical_request = buffer })

  -- s_build_canonical_request_sigv4
  unfoldable pub build_canonical_request_sigv4 : State → Result State
  build_canonical_request_sigv4 state = do
    uri_cursor ← state.signable.get_property http_uri_property
    uri ← c.uri_init_parse uri_cursor
    date ← c.date_time_to_utc_time_str state.config.date state.date
    state ← build_canonical_payload_hash c (record state { date = date })
    state ← build_canonical_headers c state
    state ← build_credential_scope state
    state ← append_canonical_method state
    state ← append_canonical_path c uri state
    state ← append_canonical_query_string c uri state
    state ← append_header_block state
    append_canonical_payload_hash c state

  -- aws_signing_build_canonical_request
  unfoldable pub build_canonical_request : State → Result State
  build_canonical_request state =
      dispatch state.config.algorithm (build_canonical_request_sigv4 state)

  -- s_append_canonical_request_hash
  unfoldable pub append_canonical_request_hash : State → ByteBuf → Result ByteBuf
  append_canonical_request_hash state dest = do
    digest ← c.sha256_compute state.canonical_request.bytes (buf_init c.sha256_len)
    c.hex_encode_append_dynamic digest.bytes dest

  -- s_build_string_to_sign_4
  unfoldable pub build_string_to_sign_4 : State → Result State
  build_string_to_sign_4 state = do
    dest ← append_signing_algorithm c state.config.algorithm state.string_to_sign
    dest ← append_character c dest b'\n'
    dest ← c.reserve_relative dest c.date_time_str_max_len
    dest ← c.append_dynamic dest state.date.bytes
    dest ← append_character c dest b'\n'
    dest ← c.append_dynamic dest state.credential_scope.bytes
    dest ← append_character c dest b'\n'
    dest ← append_canonical_request_hash state dest
    ok (record state { string_to_sign = dest })

  -- aws_signing_build_string_to_sign
  unfoldable pub build_string_to_sign : State → Result State
  build_string_to_sign state = dispatch state.config.algorithm (build_string_to_sign_4 state)
