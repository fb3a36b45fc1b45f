-- ===== src/Providers/FromProfile.antt =====
-- The providers that a profile asks for, source/credentials_provider_profile.c.
pub mod Values
pub mod Choice
use aws_c_auth.Common.{
  ℕ, zero, suc, ◌-◌, Bool, true, false, ◌||◌, not, List, [], ◌∷◌, ◌++◌, Option, none, some, Bytes,
  codes, length, ltb, ◌==◌, if◌then◌else◌,
}
use aws_c_auth.External.{Library}
use aws_c_auth.Signing.State.{Credentials}
use aws_c_auth.Profile.Collection.{
  Source, config, credentials, Collection, Profile, Property, profile_get_property,
  collection_get_profile, credentials_new_from_profile,
}
use aws_c_auth.Profile.Merge.{collection_new_from_merge}
use aws_c_auth.Profile.Paths.{
  Platform, get_credentials_file_path, get_config_file_path, get_profile_name,
  collection_new_from_file,
}

-- struct aws_credentials_provider_profile_file_impl
pub record ProfileFile : Type 0 where
  pub config_file_path : Bytes
  pub credentials_file_path : Bytes
  pub profile_name : Bytes

abbrev credentials_in : Option Profile → Option Credentials
credentials_in none = none
credentials_in (some profile) = credentials_new_from_profile profile

-- s_profile_file_credentials_provider_get_credentials_async: what the callback gets
unfoldable pub profile_file_get_credentials_async :
    Library → Platform → ProfileFile → Option Credentials
profile_file_get_credentials_async c platform impl =
    let config_profiles = collection_new_from_file c platform impl.config_file_path config in
    let credentials_profiles =
      collection_new_from_file c platform impl.credentials_file_path credentials in
    let merged_profiles = collection_new_from_merge config_profiles credentials_profiles in
    credentials_in (collection_get_profile merged_profiles impl.profile_name)

-- The providers that lie under an STS provider.
pub data Under : Type 0 where
  profile_file : ProfileFile → Under
  imds environment : Under

-- struct aws_credentials_provider_sts_options, as far as the code sets it; duration_seconds is a uint16_t,
-- a number below 65536
pub record StsOptions : Type 0 where
  pub role_arn : Bytes
  pub session_name : Bytes
  pub duration_seconds : ℕ
  pub creds_provider : Under

-- The provider that comes out.
pub data Chosen : Type 0 where
  profile_based : ProfileFile → Chosen
  sts_cached : StsOptions → Chosen

-- What can fail as a provider is made, and the decimal text of the process id.
pub record Making : Type 0 where
  pub makes_imds : Bool
  pub makes_sts : StsOptions → Bool
  pub pid : Bytes

abbrev pub max_session_name_len : ℕ
max_session_name_len = 64

abbrev pub default_session_name_pfx : Bytes
default_session_name_pfx = codes "aws-common-runtime-profile-config"

-- memcpy and snprintf into the zeroed array: no more bytes than these
unfoldable pub at_most : ℕ → Bytes → Bytes
at_most zero s = []
at_most (suc n) [] = []
at_most (suc n) (x ∷ s) = x ∷ at_most n s

-- a C string: the bytes before the first NUL
unfoldable pub c_str : Bytes → Bytes
c_str [] = []
c_str (x ∷ s) = let rest = c_str s in if x == 0 then [] else x ∷ rest

-- the session name that s_create_sts_based_provider computes
unfoldable pub session_name_of : Bytes → Option Property → Bytes
session_name_of pid (some role_session_name) = c_str (
    if ltb max_session_name_len (length role_session_name.value)
    then at_most max_session_name_len role_session_name.value
    else role_session_name.value)
session_name_of pid none = c_str (
    default_session_name_pfx
    ++ at_most (max_session_name_len - length default_session_name_pfx) (b'-' ∷ pid))

-- aws_credentials_provider_new_sts_cached
abbrev new_sts : Making → StsOptions → Option Chosen
new_sts making options = if making.makes_sts options then some (sts_cached options) else none

-- s_create_sts_based_provider; `none` is NULL
unfoldable pub create_sts_based_provider :
    Library → Making → Property → Profile → Bytes → Bytes → Option Chosen
create_sts_based_provider c making role_arn_property profile credentials_file_path
      config_file_path =
    let over : Under → StsOptions = λ under. record {
      role_arn = role_arn_property.value;
      session_name =
          session_name_of making.pid (profile_get_property profile (codes "role_session_name"));
      duration_seconds = 0;
      creds_provider = under;
    } in
    elim (profile_get_property profile (codes "source_profile")) [
      | some source_profile ↦ new_sts making (
          over (
            profile_file (record {
              config_file_path = config_file_path;
              credentials_file_path = credentials_file_path;
              profile_name = source_profile.value;
            })))
      | none ↦ elim (profile_get_property profile (codes "credential_source")) [
        | none ↦ none
        | some credential_source ↦
            if c.eq_ignore_case credential_source.value (codes "Ec2InstanceMetadata")
            then (if making.makes_imds then new_sts making (over imds) else none)
            else if c.eq_ignore_case credential_source.value (codes "Environment")
            then new_sts making (over environment)
            else none
      ]
    ]

-- the end of aws_credentials_provider_new_profile, from the profile on
unfoldable pub new_of_profile :
    Library → Making → Option Profile → Bytes → Bytes → Bytes → Option Chosen
new_of_profile c making none credentials_file_path config_file_path profile_name = none
new_of_profile c making (some profile) credentials_file_path config_file_path profile_name =
    elim (profile_get_property profile (codes "role_arn")) [
      | some role_arn_property ↦
          create_sts_based_provider c making role_arn_property profile credentials_file_path
            config_file_path
      | none ↦ some (
          profile_based (record {
            config_file_path = config_file_path;
            credentials_file_path = credentials_file_path;
            profile_name = profile_name;
          }))
    ]

abbrev no_collections : Option Collection → Option Collection → Bool
no_collections none none = true
no_collections _ _ = false

-- aws_credentials_provider_new_profile behind the two paths
unfoldable pub new_from_paths : Library → Platform → Making → Bytes → Bytes → Bytes → Option Chosen
new_from_paths c platform making credentials_file_path config_file_path profile_name =
    let config_profiles = collection_new_from_file c platform config_file_path config in
    let credentials_profiles =
      collection_new_from_file c platform credentials_file_path credentials in
    if no_collections config_profiles credentials_profiles
    then none
    else new_of_profile c making
        (collection_get_profile (collection_new_from_merge config_profiles credentials_profiles)
          profile_name)
        credentials_file_path config_file_path profile_name

-- aws_credentials_provider_new_profile, with the overrides of the credentials file, the configuration
-- file and the profile name; `none` is NULL
unfoldable pub new_profile :
    Library → Platform → Making → Option Bytes → Option Bytes → Option Bytes → Option Chosen
new_profile c platform making credentials_override config_override name_override =
    elim (get_credentials_file_path c platform credentials_override) [
      | none ↦ none
      | some credentials_file_path ↦ elim (get_config_file_path c platform config_override) [
        | none ↦ none
        | some config_file_path ↦
            new_from_paths c platform making credentials_file_path config_file_path
              (get_profile_name platform name_override)
      ]
    ]
