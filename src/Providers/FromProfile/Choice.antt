-- ===== src/Providers/FromProfile/Choice.antt =====
-- Which provider a profile asks for.
use aws_c_auth.Common.{
  ℕ, zero, suc, ◌-◌, ◌≤◌, Bool, true, false, [], ◌∷◌, ◌++◌, Option, none, some, Bytes, codes,
  length, length-append, if◌then◌else◌, ◌≡◌, refl, arith, Option-cases, Bool-cases, inl, inr,
}
use aws_c_auth.External.{Library}
use aws_c_auth.Profile.Collection.{Profile, Property, profile_get_property}
use aws_c_auth.Providers.FromProfile.{
  StsOptions, Chosen, profile_based, sts_cached, Making, max_session_name_len,
  default_session_name_pfx, at_most, c_str, session_name_of, create_sts_based_provider,
  new_of_profile,
}

length-at_most : (n : ℕ) (s : Bytes) → length (at_most n s) ≤ n
unfolding at_most
length-at_most zero s = omega arith
length-at_most (suc n) [] = omega arith
length-at_most (suc n) (x ∷ s) = omega (arith, length-at_most n s)

length-c_str : (s : Bytes) → length (c_str s) ≤ length s
unfolding c_str
length-c_str [] = omega arith
length-c_str (x ∷ s) = ground (arith, length-c_str s)

-- Whatever the profile and the process id, the session name has at most 64 bytes, the most that the
-- array holds in front of its last NUL.
pub length-session_name_of :
    (pid : Bytes) (property : Option Property)
    → length (session_name_of pid property) ≤ max_session_name_len
unfolding session_name_of codes
length-session_name_of pid none =
    let room = max_session_name_len - length default_session_name_pfx in
    omega (
      arith,
      length-c_str (default_session_name_pfx ++ at_most room (b'-' ∷ pid)),
      length-append default_session_name_pfx (at_most room (b'-' ∷ pid)),
      length-at_most room (b'-' ∷ pid),
    )
length-session_name_of pid (some p) = ground (
  arith,
  length-c_str (at_most max_session_name_len p.value),
  length-c_str p.value,
  length-at_most max_session_name_len p.value,
)

-- If a provider was made, it assumes this role, under a session name that fits.
abbrev pub IsRole : Bytes → Option Chosen → Type 0
IsRole arn none = Unit
IsRole arn (some (profile_based impl)) = ⊥
IsRole arn (some (sts_cached options)) =
    (options.role_arn ≡ arn) × (length options.session_name ≤ max_session_name_len)

new_sts-IsRole :
    (making : Making) (options : StsOptions)
    → length options.session_name ≤ max_session_name_len
    → IsRole options.role_arn (if making.makes_sts options then some (sts_cached options) else none)
new_sts-IsRole making options h = elim (Bool-cases (making.makes_sts options)) [
  | inl e ↦ rw e (refl, h)
  | inr e ↦ rw e tt
]

if-IsRole :
    (arn : Bytes) (b : Bool) (x y : Option Chosen)
    → IsRole arn x
    → IsRole arn y
    → IsRole arn (if b then x else y)
if-IsRole arn true x y h k = h
if-IsRole arn false x y h k = k

create_sts_based_provider-IsRole :
    (c : Library) (making : Making) (arn : Property) (profile : Profile) (crp cfp : Bytes)
    → IsRole arn.value (create_sts_based_provider c making arn profile crp cfp)
unfolding create_sts_based_provider
create_sts_based_provider-IsRole c making arn profile crp cfp =
    let fits =
      length-session_name_of making.pid
        (profile_get_property profile (codes "role_session_name")) in
    elim (Option-cases (profile_get_property profile (codes "source_profile"))) [
      | inr (source, e) ↦ rw (create_sts_based_provider, e) (new_sts-IsRole making _ fits)
      | inl e ↦ elim (Option-cases (profile_get_property profile (codes "credential_source"))) [
        | inl f ↦ rw (create_sts_based_provider, e, f) tt
        | inr (source, f) ↦
            rw (create_sts_based_provider, e, f)
              (if-IsRole arn.value (c.eq_ignore_case source.value (codes "Ec2InstanceMetadata")) _ _
                (if-IsRole arn.value making.makes_imds _ none (new_sts-IsRole making _ fits) tt)
                (if-IsRole arn.value (c.eq_ignore_case source.value (codes "Environment")) _ none
                  (new_sts-IsRole making _ fits) tt))
      ]
    ]

-- If the profile has a role, the provider that is made for it, where one is made, assumes that role
-- under a session name of at most 64 bytes: the profile's own keys are never used as they are.
pub new_of_profile-IsRole :
    (c : Library) (making : Making) (profile : Profile) (role_arn : Property)
    (credentials_file_path config_file_path profile_name : Bytes)
    → profile_get_property profile (codes "role_arn") ≡ some role_arn
    → IsRole role_arn.value
        (new_of_profile c making (some profile) credentials_file_path config_file_path profile_name)
unfolding new_of_profile
new_of_profile-IsRole c making profile arn crp cfp name e =
    rw (new_of_profile, e) (create_sts_based_provider-IsRole c making arn profile crp cfp)
