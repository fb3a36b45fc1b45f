-- ===== src/Signing/Request/Scope.antt =====
-- The credential scope, s_build_credential_scope.
use Prim.Native.Nat.{max}
use aws_c_auth.Common.{
  ◌+◌, ◌<◌, ◌∷◌, ◌++◌, append_assoc, Bytes, codes, length, ◌≡◌, refl, Returns, returns, arith,
}
use aws_c_auth.External.{Library, Documented}
use aws_c_auth.Signing.Buffers.{append_character_lem}
use aws_c_auth.Signing.State.{State}
use aws_c_auth.Signing.Supported.{IsSupported, dispatch-IsSupported}
use aws_c_auth.Signing.Request.{build_credential_scope, append_credential_scope_terminator}

module _ (c : Library) (d : Documented c) where
  -- The date, the region, the service and the terminator, with slashes between them.
  abbrev pub scope_text : State → Bytes
  scope_text s =
      d.short_date_str s.config.date
      ++ (b'/' ∷ (s.config.region ++ (b'/' ∷ (s.config.service ++ (b'/' ∷ codes "aws4_request")))))

  -- With a supported algorithm, building the credential scope succeeds: it appends the scope to its
  -- buffer, and to the other one the access key, a slash and what the first then holds. Nothing else of
  -- the state changes.
  pub build_credential_scope-text :
      (s : State)
      → IsSupported s.config.algorithm
      → Returns (build_credential_scope c s) (λ r.
        (r.credential_scope.bytes ≡ s.credential_scope.bytes ++ scope_text s)
        × (r.access_credential_scope.bytes
            ≡ s.access_credential_scope.bytes
              ++ (s.credentials.access_key_id ++ (b'/' ∷ r.credential_scope.bytes)))
        × (r ≡ record s {
          credential_scope = r.credential_scope;
          access_credential_scope = r.access_credential_scope;
        }))
  unfolding build_credential_scope append_credential_scope_terminator
  build_credential_scope-text s supported =
      let date = d.short_date_str s.config.date in
      let used = length s.credential_scope.bytes in
      let reserved = max s.credential_scope.capacity (used + c.date_time_str_max_len) in
      let room : used + length date < reserved =
        omega (arith, d.short_date_str_fits s.config.date) in
      simp
        (
          d.reserve_relative_eq,
          d.short_date_str_eq s.config.date (record s.credential_scope { capacity = reserved })
              room,
          dispatch-IsSupported,
          append_character_lem c d,
          d.append_dynamic_eq,
        )
        (returns _ _ (simp append_assoc, simp append_assoc, refl))
