-- ===== src/Signing/Authorization/Key.antt =====
-- The signing key and the signature.
use aws_c_auth.Common.{Bytes, codes, length, ◌++◌, ◌≡◌, ok, arith, ℕ, ◌≤◌, ◌∙◌}
use aws_c_auth.External.{ByteBuf, buf_init, Library, Documented, append_fixed, grown_to}
use aws_c_auth.Signing.State.{State}
use aws_c_auth.Signing.Authorization.{compute_sigv4_signing_key, append_sigv4_signature_value}

-- An append without growth into an empty buffer in which the bytes fit.
fixed_fits :
    (n : ℕ) (s : Bytes)
    → length s ≤ n
    → append_fixed (buf_init n) s ≡ ok (record { bytes = s; capacity = n })
fixed_fits n s h = ground arith

module _ (c : Library) (d : Documented c) where
  open d use {sha256, hex, hmac, short_date_str}

  -- The key derivation of Signature Version 4: a chain of four message authentication codes.
  abbrev pub signing_key : State → Bytes
  signing_key s =
      let secret = codes "AWS4" ++ s.credentials.secret_access_key in
      let date_key = hmac secret (short_date_str s.config.date) in
      let region_key = hmac date_key s.config.region in
      let service_key = hmac region_key s.config.service in hmac service_key (codes "aws4_request")

  abbrev pub signature : State → Bytes
  signature s = hex (hmac (signing_key s) s.string_to_sign.bytes)

  abbrev pub mac : State → Bytes
  mac s = hmac (signing_key s) s.string_to_sign.bytes

  hmac_fits :
      (k s : Bytes)
      → c.sha256_hmac_compute k s (buf_init c.sha256_len)
        ≡ ok (record { bytes = hmac k s; capacity = c.sha256_len })
  hmac_fits k s = d.hmac_eq k s _ ∙ fixed_fits _ _ (omega (arith, d.hmac_length k s))

  signing_key_lem :
      (s : State)
      → compute_sigv4_signing_key c s (buf_init c.sha256_len)
        ≡ ok (record { bytes = signing_key s; capacity = c.sha256_len })
  unfolding compute_sigv4_signing_key
  signing_key_lem s = simp (
    d.append_dynamic_eq,
    d.short_date_str_eq s.config.date (buf_init c.date_time_str_max_len)
        (omega (arith, d.short_date_str_fits s.config.date)),
    hmac_fits,
  )

  pub signature_lem :
      (s : State) (dest : ByteBuf)
      → append_sigv4_signature_value c s dest
        ≡ ok (grown_to dest (signature s) (d.hex_grown dest (mac s)))
  unfolding append_sigv4_signature_value
  signature_lem s dest = simp (signing_key_lem, hmac_fits, d.hex_eq)
