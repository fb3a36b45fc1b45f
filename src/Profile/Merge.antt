-- ===== src/Profile/Merge.antt =====
-- Merging a configuration file's profiles with those of a credentials file.
pub mod Lookup
use aws_c_auth.Common.{[], ◌∷◌, Option, none, some, Bytes, Table, find, put, remove}
use aws_c_auth.Profile.Collection.{
  Property, Profile, no_source, Collection, property_new, profile_new,
}

-- the loop of s_profile_property_merge over the source's sub properties
unfoldable pub merge_sub_properties : Table Bytes → Table Bytes → Table Bytes
merge_sub_properties dest [] = dest
merge_sub_properties dest ((key, value) ∷ source) =
    merge_sub_properties (put key value (remove key dest)) source

-- s_profile_property_merge; a source value is never NULL
unfoldable pub property_merge : Property → Property → Property
property_merge dest source = record dest {
  value = source.value;
  is_empty_valued = source.is_empty_valued;
  sub_properties = merge_sub_properties dest.sub_properties source.sub_properties;
}

-- the destination of a merge: what is there, or a new property with an empty value
abbrev pub property_or_new : Bytes → Option Property → Property
property_or_new name none = property_new name []
property_or_new name (some property) = property

-- the loop of s_profile_merge
unfoldable pub merge_properties : Table Property → Table Property → Table Property
merge_properties dest [] = dest
merge_properties dest ((key, source_property) ∷ source) =
    merge_properties
      (put key (property_merge (property_or_new key (find key dest)) source_property) dest) source

-- s_profile_merge
unfoldable pub profile_merge : Profile → Profile → Profile
profile_merge dest source = record dest {
  has_profile_prefix = source.has_profile_prefix;
  properties = merge_properties dest.properties source.properties;
}

abbrev pub profile_or_new : Bytes → Profile → Option Profile → Profile
profile_or_new name source none = profile_new name source.has_profile_prefix
profile_or_new name source (some profile) = profile

-- the loop of s_profile_collection_merge
unfoldable pub merge_profiles : Table Profile → Table Profile → Table Profile
merge_profiles dest [] = dest
merge_profiles dest ((key, source_profile) ∷ source) =
    merge_profiles
      (put key (profile_merge (profile_or_new key source_profile (find key dest)) source_profile)
        dest)
      source

-- s_profile_collection_merge
unfoldable pub collection_merge : Collection → Collection → Collection
collection_merge dest source = record dest {
  profiles = merge_profiles dest.profiles source.profiles;
}

abbrev merge_if : Collection → Option Collection → Collection
merge_if merged none = merged
merge_if merged (some profiles) = collection_merge merged profiles

-- aws_profile_collection_new_from_merge
unfoldable pub collection_new_from_merge : Option Collection → Option Collection → Collection
collection_new_from_merge config_profiles credentials_profiles =
    merge_if (merge_if (record { profile_source = no_source; profiles = [] }) config_profiles)
      credentials_profiles
