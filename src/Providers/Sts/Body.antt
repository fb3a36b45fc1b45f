-- ===== src/Providers/Sts/Body.antt =====
-- The request that the STS provider sends.
use aws_c_auth.Common.{
  ℕ, zero, suc, ◌+◌, ◌<◌, ◌≤◌, [], ◌∷◌, ◌++◌, append_assoc, Bytes, codes, length, ◌≡◌, refl, ap,
  arith, Returns, returns,
}
use aws_c_auth.External.{ByteBuf, Library, Documented}
use aws_c_auth.Providers.FromProfile.{StsOptions, at_most}
use aws_c_auth.Providers.Sts.{
  StsImpl, default_duration_secs, new_sts, new_sts_cached, write_body_to_buffer,
}

at_most-all : (n : ℕ) (s : Bytes) → length s ≤ n → at_most n s ≡ s
unfolding at_most
at_most-all zero [] h = refl
at_most-all (suc n) [] h = refl
at_most-all zero (x ∷ s) h = ground (arith, h)
at_most-all (suc n) (x ∷ s) h = ap (λ l. x ∷ l) (at_most-all n s (omega (arith, h)))

module _ (c : Library) (d : Documented c) where
  -- The text of a request to assume a role.
  abbrev pub assume_role_text : (ℕ → Bytes) → StsImpl → Bytes
  assume_role_text decimal impl =
      codes "Version=2011-06-15&Action=AssumeRole&RoleArn="
      ++ (d.encode_param impl.assume_role_profile
          ++ (codes "&RoleSessionName="
              ++ (d.encode_param impl.role_session_name
                  ++ (codes "&DurationSeconds=" ++ decimal impl.duration_seconds))))

  -- Writing the body succeeds and appends the text of the request: the version, the action, the encoded
  -- role and session name and the whole numeral of the duration, if a numeral of a 16 bit number
  -- has five digits at most.
  pub write_body_to_buffer-text :
      (decimal : ℕ → Bytes) (impl : StsImpl) (body : ByteBuf)
      → ((n : ℕ) → n < 65536 → length (decimal n) ≤ 5)
      → impl.duration_seconds < 65536
      → Returns
          (write_body_to_buffer c decimal impl body)
          (λ r. r.bytes ≡ body.bytes ++ assume_role_text decimal impl)
  unfolding write_body_to_buffer
  write_body_to_buffer-text decimal impl body digits h =
      simp
        (
          d.append_dynamic_eq,
          d.encode_param_eq,
          at_most-all 5 (decimal impl.duration_seconds) (digits impl.duration_seconds h),
        )
        (returns _ _ (simp append_assoc))

-- The duration that a request asks for is at least the minimum of STS, is the caller's where that is no
-- smaller, and is 30 seconds more than the time after which the cache over the provider asks again.
pub new_sts_cached-grace :
    (options : StsOptions)
    → (let (impl, refresh) = new_sts_cached options in
        (default_duration_secs ≤ impl.duration_seconds)
        × (impl.duration_seconds ≡ refresh + 30)
        × (default_duration_secs ≤ options.duration_seconds
            → impl.duration_seconds ≡ options.duration_seconds))
unfolding new_sts_cached new_sts
new_sts_cached-grace options = (ground arith, ground arith, λ h. ground (arith, h))
