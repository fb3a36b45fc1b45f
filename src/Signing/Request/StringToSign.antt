-- ===== src/Signing/Request/StringToSign.antt =====
-- The string to sign, aws_signing_build_string_to_sign.
use aws_c_auth.Common.{
  Bytes, codes, [], ◌∷◌, ◌++◌, append_assoc, ◌≡◌, refl, ok, Returns, returns, arith,
}
use aws_c_auth.External.{ByteBuf, buf_init, Library, Documented, append_fixed, grown_to}
use aws_c_auth.Signing.State.{State, append_character, append_signing_algorithm}
use aws_c_auth.Signing.Supported.{IsSupported, dispatch-IsSupported, algorithm_cursor-IsSupported}
use aws_c_auth.Signing.Request.{
  build_string_to_sign, build_string_to_sign_4, append_canonical_request_hash,
}

module _ (c : Library) (d : Documented c) where
  open d use {sha256, hex}

  digest_fits :
      (s : Bytes)
      → append_fixed (buf_init c.sha256_len) (sha256 s)
        ≡ ok (record { bytes = sha256 s; capacity = c.sha256_len })
  digest_fits s = ground (arith, d.sha256_length s)

  canonical_request_hash_lem :
      (state : State) (dest : ByteBuf)
      → append_canonical_request_hash c state dest ≡ (
          let digest = sha256 state.canonical_request.bytes in
          ok (grown_to dest (hex digest) (d.hex_grown dest digest)))
  unfolding append_canonical_request_hash
  canonical_request_hash_lem state dest = simp (d.sha256_eq, digest_fits, d.hex_eq)

  -- The string to sign of Signature Version 4: algorithm, time, scope and hash, a line each.
  abbrev pub four_lines : State → Bytes
  four_lines s =
      codes "AWS4-HMAC-SHA256"
      ++ (b'\n'
          ∷ (s.date.bytes
              ++ (b'\n'
                  ∷ (s.credential_scope.bytes
                      ++ (b'\n' ∷ hex (sha256 s.canonical_request.bytes))))))

  -- With a supported algorithm and an empty string_to_sign buffer, building the string to sign
  -- succeeds; the buffer then holds the algorithm name, the date, the credential scope and the hex
  -- SHA-256 of the canonical request, on four lines with no newline behind the last, and the rest
  -- of the state is unchanged.
  pub build_string_to_sign-four_lines :
      (s : State)
      → IsSupported s.config.algorithm
      → s.string_to_sign.bytes ≡ []
      → Returns (build_string_to_sign c s) (λ r.
        (r.string_to_sign.bytes ≡ four_lines s)
        × (r ≡ record s { string_to_sign = r.string_to_sign }))
  unfolding build_string_to_sign build_string_to_sign_4 append_signing_algorithm append_character
  build_string_to_sign-four_lines s h e =
      rw (dispatch-IsSupported s.config.algorithm (build_string_to_sign_4 c s) h) (
        simp
          (
            algorithm_cursor-IsSupported s.config.algorithm h,
            canonical_request_hash_lem,
            d.append_dynamic_eq,
            d.reserve_relative_eq,
          )
          (returns _ _ (simp (append_assoc, e), refl)))
