-- ===== src/Profile/Collection.antt =====
-- Profiles, their properties and the collections that hold them. A pointer into a collection is
-- the name of what it points to.
pub mod Default
use aws_c_auth.Common.{
  Bool, true, false, not, ◌&&◌, [], ◌∷◌, ◌++◌, Option, none, some, Bytes, codes, length, Table,
  find, put, remove, ◌==◌, if◌then◌else◌,
}
use aws_c_auth.Profile.Chars.{is_default_profile_name}
use aws_c_auth.Signing.State.{Credentials}

-- struct aws_profile_property
pub record Property : Type 0 where
  pub name : Bytes
  pub value : Bytes
  pub sub_properties : Table Bytes
  pub is_empty_valued : Bool

-- struct aws_profile
pub record Profile : Type 0 where
  pub name : Bytes
  pub properties : Table Property
  pub has_profile_prefix : Bool

-- enum aws_profile_source_type
pub data Source : Type 0 where
  no_source config credentials : Source

-- struct aws_profile_collection
pub record Collection : Type 0 where
  pub profile_source : Source
  pub profiles : Table Profile

-- aws_profile_property_new
unfoldable pub property_new : Bytes → Bytes → Property
property_new name value = record {
  name = name;
  value = value;
  sub_properties = [];
  is_empty_valued = length value == 0;
}

-- s_profile_property_add_continuation
unfoldable pub property_add_continuation : Property → Bytes → Property
property_add_continuation property continuation = record property {
  value = property.value ++ (b'\n' ∷ continuation);
}

-- s_profile_property_add_sub_property
unfoldable pub property_add_sub_property : Property → Bytes → Bytes → Property
property_add_sub_property property key value = record property {
  sub_properties = put key value (remove key property.sub_properties);
}

-- aws_profile_new
unfoldable pub profile_new : Bytes → Bool → Profile
profile_new name has_prefix = record {
  name = name;
  properties = [];
  has_profile_prefix = has_prefix;
}

-- s_profile_add_property
unfoldable pub profile_add_property : Profile → Bytes → Bytes → Profile
profile_add_property profile key value = record profile {
  properties = put key (property_new key value) profile.properties;
}

-- aws_profile_get_property
unfoldable pub profile_get_property : Profile → Bytes → Option Property
profile_get_property profile name = find name profile.properties

-- aws_profile_collection_get_profile
unfoldable pub collection_get_profile : Collection → Bytes → Option Profile
collection_get_profile collection name = find name collection.profiles

-- the end of s_profile_collection_add_profile: reuse the profile that is there, or put a new one
unfoldable pub add_or_reuse : Collection → Bytes → Bool → Option Profile → Collection × Option Bytes
add_or_reuse collection name has_prefix (some existing) = (collection, some name)
add_or_reuse collection name has_prefix none = (
  record collection { profiles = put name (profile_new name has_prefix) collection.profiles },
  some name,
)

-- a default profile of a configuration file, for a profile that is there already
unfoldable pub add_default_profile :
    Collection → Bytes → Bool → Option Profile → Collection × Option Bytes
add_default_profile collection name has_prefix none = add_or_reuse collection name has_prefix none
add_default_profile collection name has_prefix (some existing) =
    if not has_prefix && existing.has_profile_prefix
    then (collection, none)
    else if has_prefix && not existing.has_profile_prefix
    then add_or_reuse (record collection { profiles = remove name collection.profiles }) name
        has_prefix none
    else add_or_reuse collection name has_prefix (some existing)

abbrev pub is_config : Source → Bool
is_config config = true
is_config _ = false

abbrev pub is_credentials : Source → Bool
is_credentials credentials = true
is_credentials _ = false

-- s_profile_collection_add_profile: the collection and the new current profile
unfoldable pub collection_add_profile : Collection → Bytes → Bool → Collection × Option Bytes
collection_add_profile collection name has_prefix =
    let existing = find name collection.profiles in
    if is_config collection.profile_source && is_default_profile_name name
    then add_default_profile collection name has_prefix existing
    else add_or_reuse collection name has_prefix existing

-- s_profile_get_property_value
unfoldable pub profile_get_property_value : Profile → Bytes → Option Bytes
profile_get_property_value profile name = elim (profile_get_property profile name) [
  | none ↦ none
  | some property ↦ some property.value
]

abbrev pub credentials_of : Option Bytes → Option Bytes → Option Bytes → Option Credentials
credentials_of (some access_key) (some secret_key) token =
    some
      (record { access_key_id = access_key; secret_access_key = secret_key; session_token = token })
credentials_of _ _ token = none

-- aws_credentials_new_from_profile
unfoldable pub credentials_new_from_profile : Profile → Option Credentials
credentials_new_from_profile profile =
    credentials_of (profile_get_property_value profile (codes "aws_access_key_id"))
      (profile_get_property_value profile (codes "aws_secret_access_key"))
      (profile_get_property_value profile (codes "aws_session_token"))
