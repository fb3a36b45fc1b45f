-- ===== src/Signing/Headers.antt =====
-- The canonical header block and the signed header names: s_append_canonical_header,
-- s_build_canonical_stable_header_list and s_build_canonical_headers of source/aws_signing.c.
pub mod Bounds
pub mod Reserve
pub mod Capacity
pub mod Squash
pub mod Lines
pub mod Groups
pub mod Pairs
pub mod Loop
pub mod Size
pub mod Canonical
use aws_c_auth.Common.{
  ℕ, ◌+◌, ◌*◌, Bool, true, false, not, ◌&&◌, ◌||◌, List, [], ◌∷◌, ◌++◌, Option, none, some, Bytes,
  Ordering, length, ltb, leb, ◌==◌, if◌then◌else◌, Result, ok, err, illegal_request_header,
  out_of_bounds_write, ◌>>=◌, ◌>>◌,
}
use aws_c_auth.Common.Sort.{qsort}
use aws_c_auth.External.{ByteBuf, Library}
use aws_c_auth.Signing.Config.{is_query_param_auth, signs_body}
use aws_c_auth.Signing.State.{
  State, Header, append_character, table_has, forbidden_headers, should_sign_param,
  content_header_name, date_name, security_token_name, http_headers_list,
}

-- struct stable_header
pub record StableHeader : Type 0 where
  pub header : Header
  pub original_index : ℕ

-- s_is_space: isspace in the C locale
unfoldable pub is_space : ℕ → Bool
is_space value = value == b' ' || leb 9 value && leb value 13

-- One byte written through a raw pointer behind the contents of a buffer, which is defined only
-- within the allocation.
unfoldable pub raw_write : ByteBuf → ℕ → Result ByteBuf
raw_write buffer value =
    if ltb (length buffer.bytes) buffer.capacity
    then ok (record buffer { bytes = buffer.bytes ++ value ∷ [] })
    else err out_of_bounds_write

-- the raw, unsafe write loop, which squashes runs of ' '
unfoldable pub write_squashed : Bool → Bytes → ByteBuf → Result ByteBuf
write_squashed in_space [] buffer = ok buffer
write_squashed in_space (value ∷ rest) buffer = do
  let space = value == b' '
  buffer ← if not space || not in_space then raw_write buffer value else ok buffer
  write_squashed space rest buffer

abbrev pub is_some : Option Bytes → Bool
is_some none = false
is_some (some _) = true

module _ (c : Library) where
  -- s_canonical_header_comparator
  unfoldable pub canonical_header_comparator : StableHeader → StableHeader → Ordering
  canonical_header_comparator left right =
      elim (c.compare_lookup left.header.name right.header.name c.to_lower) [
        | Ordering.lt ↦ Ordering.lt
        | Ordering.gt ↦ Ordering.gt
        | Ordering.eq ↦
            if ltb left.original_index right.original_index then Ordering.lt else Ordering.gt
      ]

  -- the loop over the lines of a header's value; the flag is `prepend_comma`
  unfoldable pub append_header_lines : Bool → List Bytes → ByteBuf → Result ByteBuf
  append_header_lines prepend_comma [] buffer = ok buffer
  append_header_lines prepend_comma (line ∷ lines) buffer =
      let trimmed_value = c.trim_pred line is_space in
      let skip = append_header_lines prepend_comma lines buffer in
      let write = (do
        buffer' ← if prepend_comma then append_character c buffer b',' else ok buffer
        buffer' ← write_squashed false trimmed_value buffer'
        append_header_lines true lines buffer') in
      if length trimmed_value == 0 then skip else write

  -- the name of a header that has not been seen before, in both buffers
  unfoldable pub append_header_name : Bool → Bytes → ByteBuf × ByteBuf → Result (ByteBuf × ByteBuf)
  append_header_name has_previous name (header_buffer, signed_headers) = do
    header_buffer ←
        if has_previous then append_character c header_buffer b'\n' else ok header_buffer
    signed_headers ←
        if has_previous then append_character c signed_headers b';' else ok signed_headers
    signed_headers ← c.append_with_lookup signed_headers name c.to_lower
    header_buffer ← c.append_with_lookup header_buffer name c.to_lower
    header_buffer ← append_character c header_buffer b':'
    ok (header_buffer, signed_headers)

  -- `last_seen_header_name == NULL || aws_byte_cursor_compare_lookup(...) != 0`
  unfoldable pub is_new_name : Option Bytes → Bytes → Bool
  is_new_name none name = true
  is_new_name (some last) name = elim (c.compare_lookup last name c.to_lower) [
    | Ordering.eq ↦ false
    | _ ↦ true
  ]

  -- s_append_canonical_header
  unfoldable pub append_canonical_header :
      Header → Option Bytes → ByteBuf × ByteBuf → Result (ByteBuf × ByteBuf)
  append_canonical_header header last_seen (header_buffer, signed_headers) = do
    let is_new = is_new_name last_seen header.name
    (header_buffer', signed_headers') ←
        if is_new
        then append_header_name (is_some last_seen) header.name (header_buffer, signed_headers)
        else ok (header_buffer, signed_headers)
    header_buffer' ←
        append_header_lines (not is_new) (c.split_on_char header.value b'\n') header_buffer'
    ok (header_buffer', signed_headers')

  -- the body of the loop over the request's headers: the wrapped headers and the capacity
  unfoldable pub wrap_signable_header :
      State → ℕ → Header → List StableHeader × ℕ → List StableHeader × ℕ
  wrap_signable_header state i header (list, required) =
      if not (should_sign_param c state header.name) then (list, required) else (
        list ++ record { header = header; original_index = i } ∷ [],
        required + (length header.name + length header.value),
      )

  -- the loop, from index `i` on
  unfoldable pub wrap_signable_headers :
      State → ℕ → List Header → List StableHeader × ℕ → List StableHeader × ℕ
  wrap_signable_headers state i [] acc = acc
  wrap_signable_headers state i (header ∷ headers) acc =
      wrap_signable_headers state (i + 1) headers (wrap_signable_header state i header acc)

  -- a header that the signing process adds: list, next index and capacity
  unfoldable pub add_header : Header → List StableHeader × ℕ × ℕ → List StableHeader × ℕ × ℕ
  add_header header (list, i, required) = (
    list ++ record { header = header; original_index = i } ∷ [],
    i + 1,
    required + (length header.name + length header.value),
  )

  unfoldable pub add_security_token_header :
      State → Option Bytes → List StableHeader × ℕ × ℕ → List StableHeader × ℕ × ℕ
  add_security_token_header state none acc = acc
  add_security_token_header state (some token) acc =
      if should_sign_param c state security_token_name
      then add_header (record { name = security_token_name; value = token }) acc
      else acc

  -- the request's headers and those that the process adds: list, next index and capacity
  unfoldable pub collect_headers : State → List Header → List StableHeader × ℕ × ℕ
  collect_headers state signable_headers =
      let (wrapped, required) = wrap_signable_headers state 0 signable_headers ([], 0) in
      let acc =
        add_security_token_header state state.credentials.session_token
          (wrapped, length signable_headers, required) in
      let date_header : Header = record { name = date_name; value = state.date.bytes } in
      let acc =
        if not (is_query_param_auth state.config.algorithm)
        then add_header date_header acc
        else acc in
      let content_header : Header = record {
        name = content_header_name;
        value = state.payload_hash.bytes;
      } in
      if signs_body state.config.body_signing_type then add_header content_header acc else acc

  -- s_build_canonical_stable_header_list: the headers and the required capacity, with two more bytes
  -- for each header
  unfoldable pub build_canonical_stable_header_list : State → Result (List StableHeader × ℕ)
  build_canonical_stable_header_list state = do
    signable_headers ← state.signable.get_property_list http_headers_list
    let (list, _, required) = collect_headers state signable_headers
    ok (list, required + length list * 2)

  -- s_validate_signable_header_list
  unfoldable pub validate_signable_header_list : List Header → Result (Unit {0})
  validate_signable_header_list [] = ok tt
  validate_signable_header_list (header ∷ headers) =
      if table_has c forbidden_headers header.name
      then err illegal_request_header
      else validate_signable_header_list headers

  -- the loop over the sorted headers
  unfoldable pub append_canonical_headers :
      List StableHeader → Option Bytes → ByteBuf × ByteBuf → Result (ByteBuf × ByteBuf)
  append_canonical_headers [] last_seen buffers = ok buffers
  append_canonical_headers (wrapper ∷ headers) last_seen buffers = do
    buffers ← append_canonical_header wrapper.header last_seen buffers
    append_canonical_headers headers (some wrapper.header.name) buffers

  -- s_build_canonical_headers
  unfoldable pub build_canonical_headers : State → Result State
  build_canonical_headers state = do
    signable_headers ← state.signable.get_property_list http_headers_list
    validate_signable_header_list signable_headers
    (headers, reserve_size) ← build_canonical_stable_header_list state
    header_buffer ← c.reserve state.canonical_header_block reserve_size
    let sorted = qsort canonical_header_comparator headers
    (header_buffer', signed_headers) ←
        append_canonical_headers sorted none (header_buffer, state.signed_headers)
    header_buffer' ← append_character c header_buffer' b'\n'
    header_buffer' ← append_character c header_buffer' b'\n'
    header_buffer' ← c.append_dynamic header_buffer' signed_headers.bytes
    header_buffer' ← append_character c header_buffer' b'\n'
    ok (record state { canonical_header_block = header_buffer'; signed_headers = signed_headers })
