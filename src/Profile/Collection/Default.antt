-- ===== src/Profile/Collection/Default.antt =====
-- The precedence of "profile default" over "default" in configuration files.
use aws_c_auth.Common.{
  Bool, true, not, ◌&&◌, Option, none, some, Bytes, codes, remove, find-put, find-remove, bytes_eq,
  bytes_eq_refl, bytes_eq_iff, if◌then◌else◌, ◌≡◌, ◌≢◌, refl, arith,
}
use aws_c_auth.Profile.Chars.{is_default_profile_name}
use aws_c_auth.Profile.Collection.{
  Profile, Collection, config, profile_new, collection_add_profile, add_default_profile,
  add_or_reuse, collection_get_profile,
}

abbrev pub default_name : Bytes
default_name = codes "default"

abbrev Outcome : Type 0
Outcome = Option Profile × Option Bytes

-- What a declaration of the default profile makes of the profile that is there: the profile behind
-- it, and the current profile.
abbrev pub default_outcome : Bool → Option Profile → Outcome
default_outcome has_prefix none = (some (profile_new default_name has_prefix), some default_name)
default_outcome has_prefix (some p) =
    if not has_prefix && p.has_profile_prefix
    then (some p, none)
    else if has_prefix && not p.has_profile_prefix
    then (some (profile_new default_name true), some default_name)
    else (some p, some default_name)

is_default : is_default_profile_name default_name ≡ true
unfolding is_default_profile_name codes bytes_eq
is_default = refl

-- In a configuration file, declaring the default profile has exactly these effects. An unprefixed
-- declaration, with a prefixed profile there, changes nothing and leaves no current profile. A
-- prefixed one, with an unprefixed profile there, makes the default profile empty and prefixed. In
-- the other cases a profile that is there stays as it is, and where there is none an empty one with
-- the declaration's prefix is made. In all cases but the first the default profile is the current one,
-- and in all cases the other profiles are unchanged.
pub add_default_profile-cases :
    (collection : Collection) (has_prefix : Bool) (name : Bytes)
    → collection.profile_source ≡ config
    → ((
      collection_get_profile
          (collection_add_profile collection default_name has_prefix).0
          default_name,
      (collection_add_profile collection default_name has_prefix).1,
    )
        ≡ default_outcome has_prefix (collection_get_profile collection default_name))
      × (name ≢ default_name
          → collection_get_profile
              (collection_add_profile collection default_name has_prefix).0
              name
            ≡ collection_get_profile collection name)
unfolding collection_add_profile add_default_profile add_or_reuse collection_get_profile
add_default_profile-cases collection has_prefix name e =
    let new = λ (b : Bool). profile_new default_name b in
    let removed = remove default_name collection.profiles in
    (
      ground (
        arith,
        is_default,
        bytes_eq_refl default_name,
        find-put default_name default_name (new has_prefix) collection.profiles,
        find-put default_name default_name (new true) removed,
      ),
      λ ne. ground (
        arith,
        is_default,
        bytes_eq_iff default_name name,
        find-put default_name name (new has_prefix) collection.profiles,
        find-put default_name name (new true) removed,
        find-remove default_name name collection.profiles,
      ),
    )
