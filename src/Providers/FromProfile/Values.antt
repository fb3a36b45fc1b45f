-- ===== src/Providers/FromProfile/Values.antt =====
-- Which credentials the profile file provider gives.
use aws_c_auth.Common.{
  [], Option, none, some, Bytes, codes, find, ◌≡◌, refl, sym, ◌∙◌, Option-cases, inl, inr,
}
use aws_c_auth.External.{Library}
use aws_c_auth.Profile.Collection.{
  Source, no_source, config, credentials, Collection, Profile, profile_get_property,
  profile_get_property_value, collection_get_profile, credentials_of, credentials_new_from_profile,
}
use aws_c_auth.Profile.Merge.{collection_new_from_merge}
use aws_c_auth.Profile.Merge.Lookup.{
  property_at, value_of, or_else, or_else-none, IsCollection, value-collection_merge,
  new_from_merge-value,
}
use aws_c_auth.Profile.File.{collection_new_from_buffer}
use aws_c_auth.Profile.File.Keys.{collection_new_from_buffer-IsCollection}
use aws_c_auth.Profile.Paths.{Platform, collection_new_from_file}
use aws_c_auth.Providers.FromProfile.{ProfileFile, profile_file_get_credentials_async}

-- The value in a collection, none where there is no collection.
abbrev pub value_in : Option Collection → Bytes → Bytes → Option Bytes
value_in none p k = none
value_in (some collection) p k = value_of (property_at collection p k)

merge-value :
    (cf cr : Option Collection) (p k : Bytes)
    → ((x : Collection) → cf ≡ some x → IsCollection x)
    → ((x : Collection) → cr ≡ some x → IsCollection x)
    → value_in (some (collection_new_from_merge cf cr)) p k
      ≡ or_else (value_in cr p k) (value_in cf p k)
unfolding collection_new_from_merge find
merge-value none none p k hc hr = refl
merge-value (some cf) none p k hc hr =
    value-collection_merge (record { profile_source = no_source; profiles = [] }) cf p k
      (hc cf refl)
    ∙ or_else-none (value_of (property_at cf p k))
merge-value none (some cr) p k hc hr =
    value-collection_merge (record { profile_source = no_source; profiles = [] }) cr p k
      (hr cr refl)
merge-value (some cf) (some cr) p k hc hr = new_from_merge-value cf cr p k (hc cf refl) (hr cr refl)

property_value_lem :
    (profile : Profile) (k : Bytes)
    → profile_get_property_value profile k ≡ value_of (find k profile.properties)
unfolding profile_get_property_value profile_get_property
property_value_lem profile k = elim (Option-cases (find k profile.properties)) [
  | inl e ↦ simp (profile_get_property_value, profile_get_property, e)
  | inr (v, e) ↦ simp (profile_get_property_value, profile_get_property, e)
]

credentials_lem :
    (collection : Collection) (name : Bytes)
    → (elim (find name collection.profiles) [
      | none ↦ none
      | some profile ↦ credentials_new_from_profile profile
    ])
      ≡ credentials_of
          (value_of (property_at collection name (codes "aws_access_key_id")))
          (value_of (property_at collection name (codes "aws_secret_access_key")))
          (value_of (property_at collection name (codes "aws_session_token")))
unfolding credentials_new_from_profile
credentials_lem collection name = elim (Option-cases (find name collection.profiles)) [
  | inl e ↦ simp e
  | inr (profile, e) ↦ simp (e, property_value_lem)
]

collection_new_from_file-IsCollection :
    (c : Library) (platform : Platform) (path : Bytes) (source : Source) (collection : Collection)
    → collection_new_from_file c platform path source ≡ some collection
    → IsCollection collection
unfolding collection_new_from_file
collection_new_from_file-IsCollection c platform path source collection e =
    elim (Option-cases (platform.file_contents path)) [
      | inl n ↦
          let no : collection_new_from_file c platform path source ≡ none =
            simp (collection_new_from_file, n) in
          cc (e, no)
      | inr (text, f) ↦ collection_new_from_buffer-IsCollection c text source collection (
          let read : collection_new_from_file c platform path source
              ≡ collection_new_from_buffer c text source =
            simp (collection_new_from_file, f) in
          sym read ∙ e)
    ]

-- The value that the profile of this name has in the credentials file, else in the configuration file.
abbrev pub file_value : Library → Platform → ProfileFile → Bytes → Option Bytes
file_value c platform impl k =
    or_else
      (value_in (collection_new_from_file c platform impl.credentials_file_path credentials)
        impl.profile_name k)
      (value_in (collection_new_from_file c platform impl.config_file_path config) impl.profile_name
        k)

-- Whatever the files hold, be they missing or broken, the profile file provider calls back with
-- credentials exactly if the profile has both keys. Each of the keys and the token is the value
-- of the credentials file where that has one, and that of the configuration file otherwise.
pub profile_file_get_credentials_async-value :
    (c : Library) (platform : Platform) (impl : ProfileFile)
    → profile_file_get_credentials_async c platform impl
      ≡ credentials_of
          (file_value c platform impl (codes "aws_access_key_id"))
          (file_value c platform impl (codes "aws_secret_access_key"))
          (file_value c platform impl (codes "aws_session_token"))
unfolding profile_file_get_credentials_async collection_get_profile
profile_file_get_credentials_async-value c platform impl =
    let cf = collection_new_from_file c platform impl.config_file_path config in
    let cr = collection_new_from_file c platform impl.credentials_file_path credentials in
    let value : (k : Bytes)
        → value_in (some (collection_new_from_merge cf cr)) impl.profile_name k
          ≡ file_value c platform impl k =
      λ k.
        merge-value cf cr impl.profile_name k
          (collection_new_from_file-IsCollection c platform impl.config_file_path config)
          (collection_new_from_file-IsCollection c platform impl.credentials_file_path
            credentials) in
    credentials_lem (collection_new_from_merge cf cr) impl.profile_name
    ∙ rw
        (
          value (codes "aws_access_key_id"),
          value (codes "aws_secret_access_key"),
          value (codes "aws_session_token"),
        )
        refl
