-- ===== src/Signing/Payload/Digest.antt =====
-- The payload hash, s_build_canonical_payload_hash.
use mathlib.Core.List.{foldl, flatten}
use aws_c_auth.Common.{
  ℕ, Bool, true, false, List, [], ◌∷◌, ◌++◌, Option, none, some, Bytes, codes, ◌≡◌, refl, sym,
  subst, ap, ◌∙◌, Result, ok, Returns, returns, arith,
}
use aws_c_auth.External.{buf_init, Library, Documented, append_fixed, grown_to}
use aws_c_auth.Signing.Config.{BodySigning, off, on, unsigned_payload}
use aws_c_auth.Signing.State.{State, Stream}
use aws_c_auth.Signing.Payload.{
  hash_stream, hash_payload, build_hashed_payload, build_canonical_payload_hash,
}

-- What a stream gives until it says that it has ended.
pub data Reads : List (Bytes × Result Bool) → List Bytes → Type 0 where
  last :
      (chunk : Bytes) (rest : List (Bytes × Result Bool))
      → Reads ((chunk, ok true) ∷ rest) (chunk ∷ [])
  more :
      {rest : List (Bytes × Result Bool)} {chunks : List Bytes} (chunk : Bytes)
      → Reads rest chunks
      → Reads ((chunk, ok false) ∷ rest) (chunk ∷ chunks)

-- The chunks that are hashed: those that are not empty.
abbrev pub hashed : List Bytes → List Bytes
hashed [] = []
hashed ([] ∷ chunks) = hashed chunks
hashed ((x ∷ chunk) ∷ chunks) = (x ∷ chunk) ∷ hashed chunks

flatten-hashed : (chunks : List Bytes) → flatten (hashed chunks) ≡ flatten chunks
unfolding flatten
flatten-hashed [] = refl
flatten-hashed ([] ∷ chunks) = flatten-hashed chunks
flatten-hashed ((x ∷ chunk) ∷ chunks) = ap (λ s. (x ∷ chunk) ++ s) (flatten-hashed chunks)

module _ (c : Library) where
  hash_stream-Reads :
      (reads : List (Bytes × Result Bool)) (chunks : List Bytes) (hash : ℕ)
      → Reads reads chunks
      → hash_stream c hash reads ≡ ok (foldl c.hash_update hash (hashed chunks))
  unfolding hash_stream
  hash_stream-Reads _ _ hash (last [] rest) = ground arith
  hash_stream-Reads _ _ hash (last (x ∷ chunk) rest) = ground arith
  hash_stream-Reads _ _ hash (more {rest} {chunks} [] h) =
      ground (arith, hash_stream-Reads rest chunks hash h)
  hash_stream-Reads _ _ hash (more {rest} {chunks} (x ∷ chunk) h) =
      ground (arith, hash_stream-Reads rest chunks (c.hash_update hash (x ∷ chunk)) h)

-- The bytes whose digest a body configuration signs; with an unsigned payload there are none.
pub data Signed : BodySigning → Option Stream → List Bytes → Type 0 where
  unsigned_body : (payload_stream : Option Stream) → Signed off payload_stream []
  no_digest : (payload_stream : Option Stream) → Signed unsigned_payload payload_stream []
  no_body : Signed on none []
  stream_body :
      (stream : Stream) (chunks : List Bytes)
      → stream.seek_before ≡ ok tt
      → stream.seek_after ≡ ok tt
      → Reads stream.reads chunks
      → Signed on (some stream) chunks

module _ (c : Library) (d : Documented c) where
  open d use {sha256, hex}

  hash_payload-Signed :
      (t : BodySigning) (p : Option Stream) (chunks : List Bytes)
      → Signed t p chunks
      → hash_payload c t p ≡ ok (foldl c.hash_update c.sha256_new (hashed chunks))
  unfolding hash_payload
  hash_payload-Signed _ p _ (unsigned_body _) = refl
  hash_payload-Signed _ p _ (no_digest _) = refl
  hash_payload-Signed _ _ _ no_body = refl
  hash_payload-Signed _ _ chunks (stream_body s _ before after reads) =
      simp (before, after, hash_stream-Reads c s.reads chunks c.sha256_new reads)

  digest_fits :
      (s : Bytes)
      → append_fixed (buf_init c.sha256_len) (sha256 s)
        ≡ ok (record { bytes = sha256 s; capacity = c.sha256_len })
  digest_fits s = ground (arith, d.sha256_length s)

  -- What stands for the payload: the hex digest of its bytes, or that it is not signed.
  abbrev pub payload_text : BodySigning → List Bytes → Bytes
  payload_text unsigned_payload chunks = codes "UNSIGNED-PAYLOAD"
  payload_text on chunks = hex (sha256 (flatten chunks))
  payload_text off chunks = hex (sha256 (flatten chunks))

  -- and the capacity of the buffer behind it
  abbrev payload_grown : State → BodySigning → List Bytes → ℕ
  payload_grown s unsigned_payload chunks = d.grown s.payload_hash (codes "UNSIGNED-PAYLOAD")
  payload_grown s on chunks = d.hex_grown s.payload_hash (sha256 (flatten chunks))
  payload_grown s off chunks = d.hex_grown s.payload_hash (sha256 (flatten chunks))

  -- The state with that text behind what its payload hash had.
  abbrev with_payload : State → BodySigning → List Bytes → State
  with_payload s t chunks = record s {
    payload_hash = grown_to s.payload_hash (payload_text t chunks) (payload_grown s t chunks);
  }

  abbrev pub with_digest : State → List Bytes → State
  with_digest s chunks = with_payload s s.config.body_signing_type chunks

  hashed_payload-digest :
      (s : State) (payload_stream : Option Stream) (chunks : List Bytes)
      → s.signable.get_payload_stream ≡ ok payload_stream
      → Signed s.config.body_signing_type payload_stream chunks
      → build_hashed_payload c s ≡ ok (with_payload s on chunks)
  unfolding build_hashed_payload
  hashed_payload-digest s p chunks got signed =
      rw (got, hash_payload-Signed s.config.body_signing_type p chunks signed)
        (simp (d.hash_eq, flatten-hashed, digest_fits, d.hex_eq))

  branch-off :
      (s : State)
      → s.config.body_signing_type ≡ off
      → build_canonical_payload_hash c s ≡ build_hashed_payload c s
  unfolding build_canonical_payload_hash
  branch-off s e = rw e refl

  branch-on :
      (s : State)
      → s.config.body_signing_type ≡ on
      → build_canonical_payload_hash c s ≡ build_hashed_payload c s
  unfolding build_canonical_payload_hash
  branch-on s e = rw e refl

  payload_hash-branch :
      (s : State) (t : BodySigning) (payload_stream : Option Stream) (chunks : List Bytes)
      → s.config.body_signing_type ≡ t
      → s.signable.get_payload_stream ≡ ok payload_stream
      → Signed t payload_stream chunks
      → build_canonical_payload_hash c s ≡ ok (with_payload s t chunks)
  unfolding build_canonical_payload_hash
  payload_hash-branch s _ p chunks e got (no_digest _) =
      rw e (rw (d.append_dynamic_eq s.payload_hash (codes "UNSIGNED-PAYLOAD")) refl)
  payload_hash-branch s off p chunks e got signed =
      branch-off s e
      ∙ hashed_payload-digest s p chunks got (subst (λ t. Signed t p chunks) (sym e) signed)
  payload_hash-branch s on p chunks e got signed =
      branch-on s e
      ∙ hashed_payload-digest s p chunks got (subst (λ t. Signed t p chunks) (sym e) signed)

  pub payload_hash-with_digest :
      (s : State) (payload_stream : Option Stream) (chunks : List Bytes)
      → s.signable.get_payload_stream ≡ ok payload_stream
      → Signed s.config.body_signing_type payload_stream chunks
      → build_canonical_payload_hash c s ≡ ok (with_digest s chunks)
  payload_hash-with_digest s p chunks got signed =
      payload_hash-branch s s.config.body_signing_type p chunks refl got signed

  -- If the payload stream can be had, and, where the payload is to be signed, its seeks and reads succeed
  -- up to its end, building the payload hash succeeds. It appends the hex SHA-256 of all bytes read, in
  -- order and without regard to empty reads, or of no bytes if there is no stream or the body
  -- configuration is off, or "UNSIGNED-PAYLOAD" if the configuration says so, and changes nothing
  -- else.
  pub build_canonical_payload_hash-digest :
      (s : State) (payload_stream : Option Stream) (chunks : List Bytes)
      → s.signable.get_payload_stream ≡ ok payload_stream
      → Signed s.config.body_signing_type payload_stream chunks
      → Returns (build_canonical_payload_hash c s) (λ r.
        (r.payload_hash.bytes
          ≡ s.payload_hash.bytes ++ payload_text s.config.body_signing_type chunks)
        × (r ≡ record s { payload_hash = r.payload_hash }))
  build_canonical_payload_hash-digest s p chunks got signed =
      rw (payload_hash-with_digest s p chunks got signed) (returns _ _ (refl, refl))
