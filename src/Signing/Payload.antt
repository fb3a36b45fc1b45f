-- ===== src/Signing/Payload.antt =====
-- The payload hash: s_build_canonical_payload_hash and s_append_canonical_payload_hash of
-- source/aws_signing.c.
pub mod Digest
use aws_c_auth.Common.{
  ℕ, Bool, List, [], ◌∷◌, Option, none, some, Bytes, codes, length, ◌==◌, if◌then◌else◌, Result, ok,
  err, unfinished, ◌>>=◌, ◌>>◌,
}
use aws_c_auth.External.{buf_init, Library}
use aws_c_auth.Signing.Config.{BodySigning, off, on, unsigned_payload, is_header_auth}
use aws_c_auth.Signing.Outcome.{append_property_list}
use aws_c_auth.Signing.State.{State, Stream, content_header_name, http_headers_list}

module _ (c : Library) where
  -- The read loop: each round hashes what was read and asks whether the stream has ended. The rounds
  -- are those that the environment gives; `unfinished` is the error if they give no end.
  unfoldable pub hash_stream : ℕ → List (Bytes × Result Bool) → Result ℕ
  hash_stream hash [] = err unfinished
  hash_stream hash ((chunk, status) ∷ rest) =
      let hash' = if length chunk == 0 then hash else c.hash_update hash chunk in
      let next = hash_stream hash' rest in
      do is_end_of_stream ← status; if is_end_of_stream then ok hash' else next

  -- the stream part, for a payload that is there and to be signed
  unfoldable pub hash_payload : BodySigning → Option Stream → Result ℕ
  hash_payload on (some stream) = do
    stream.seek_before
    hash ← hash_stream c.sha256_new stream.reads
    stream.seek_after
    ok hash
  hash_payload on none = ok c.sha256_new
  hash_payload _ stream = ok c.sha256_new

  -- the branch for payloads that are not AWS_BODY_SIGNING_UNSIGNED_PAYLOAD
  unfoldable pub build_hashed_payload : State → Result State
  build_hashed_payload state = do
    payload_stream ← state.signable.get_payload_stream
    hash ← hash_payload state.config.body_signing_type payload_stream
    digest ← c.hash_finalize hash (buf_init c.sha256_len)
    payload_hash ← c.hex_encode_append_dynamic digest.bytes state.payload_hash
    ok (record state { payload_hash = payload_hash })

  -- s_build_canonical_payload_hash
  unfoldable pub build_canonical_payload_hash : State → Result State
  build_canonical_payload_hash state = elim state.config.body_signing_type [
    | unsigned_payload ↦ do
      payload_hash ← c.append_dynamic state.payload_hash (codes "UNSIGNED-PAYLOAD")
      ok (record state { payload_hash = payload_hash })
    | on ↦ build_hashed_payload state
    | off ↦ build_hashed_payload state
  ]

  -- s_append_canonical_payload_hash
  unfoldable pub append_canonical_payload_hash : State → Result State
  append_canonical_payload_hash state = do
    buffer ← c.append_dynamic state.canonical_request state.payload_hash.bytes
    let state' = record state { canonical_request = buffer }
    ok (
        if is_header_auth state.config.algorithm
        then record state' {
          result =
              append_property_list state.result http_headers_list content_header_name
                state.payload_hash.bytes;
        }
        else state')
