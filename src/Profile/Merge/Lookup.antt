-- ===== src/Profile/Merge/Lookup.antt =====
-- What a merged collection holds at each key.
use aws_c_auth.Common.{
  [], ◌∷◌, Option, none, some, Bytes, Table, find, put, remove, find-put, find-remove, bytes_eq_iff,
  ◌≡◌, refl, ap, ◌∙◌, arith,
}
use aws_c_auth.Profile.Collection.{Property, Profile, Collection, no_source, profile_new}
use aws_c_auth.Profile.Merge.{
  merge_sub_properties, property_merge, property_or_new, merge_properties, profile_merge,
  profile_or_new, merge_profiles, collection_merge, collection_new_from_merge,
}

-- A table in which no key stands twice.
abbrev pub IsTable : {V : Type 0} → Table V → Type 0
IsTable [] = Unit
IsTable ((k, v) ∷ t) = (find k t ≡ none) × IsTable t

-- One pass over a table: each entry is combined with what the destination holds at its key.
merge_with : {V : Type 0} → (Bytes → Option V → V → V) → Table V → Table V → Table V
merge_with f dest [] = dest
merge_with f dest ((key, v) ∷ source) = merge_with f (put key (f key (find key dest) v) dest) source

abbrev merged_at :
    {V : Type 0} → (Bytes → Option V → V → V) → Bytes → Option V → Option V → Option V
merged_at f k d none = d
merged_at f k d (some v) = some (f k d v)

find-merge_with :
    {V : Type 0} (f : Bytes → Option V → V → V) (k : Bytes) (source dest : Table V)
    → IsTable source
    → find k (merge_with f dest source) ≡ merged_at f k (find k dest) (find k source)
unfolding merge_with find
find-merge_with f k [] dest h = refl
find-merge_with f k ((j, v) ∷ source) dest h = ground (
  arith,
  find-merge_with f k source (put j (f j (find j dest) v) dest) h.1,
  find-put j k (f j (find j dest) v) dest,
  bytes_eq_iff j k,
)

merge_sub_properties-eq :
    (source dest : Table Bytes) (k : Bytes)
    → IsTable source
    → find k (merge_sub_properties dest source)
      ≡ merged_at (λ k d v. v) k (find k dest) (find k source)
unfolding merge_sub_properties find
merge_sub_properties-eq [] dest k h = refl
merge_sub_properties-eq ((j, v) ∷ source) dest k h = ground (
  arith,
  merge_sub_properties-eq source (put j v (remove j dest)) k h.1,
  find-put j k v (remove j dest),
  find-remove j k dest,
  bytes_eq_iff j k,
)

combine_property : Bytes → Option Property → Property → Property
combine_property k d v = property_merge (property_or_new k d) v

merge_properties-eq :
    (source dest : Table Property)
    → merge_properties dest source ≡ merge_with combine_property dest source
unfolding merge_properties merge_with combine_property
merge_properties-eq [] dest = refl
merge_properties-eq ((j, v) ∷ source) dest =
    merge_properties-eq source (put j (combine_property j (find j dest) v) dest)

combine_profile : Bytes → Option Profile → Profile → Profile
combine_profile k d v = profile_merge (profile_or_new k v d) v

merge_profiles-eq :
    (source dest : Table Profile)
    → merge_profiles dest source ≡ merge_with combine_profile dest source
unfolding merge_profiles merge_with combine_profile
merge_profiles-eq [] dest = refl
merge_profiles-eq ((j, v) ∷ source) dest =
    merge_profiles-eq source (put j (combine_profile j (find j dest) v) dest)

abbrev pub property_in : Option Profile → Bytes → Option Property
property_in none k = none
property_in (some profile) k = find k profile.properties

-- The property of a profile in a collection.
abbrev pub property_at : Collection → Bytes → Bytes → Option Property
property_at collection p k = property_in (find p collection.profiles) k

abbrev pub value_of : Option Property → Option Bytes
value_of none = none
value_of (some property) = some property.value

abbrev pub or_else : Option Bytes → Option Bytes → Option Bytes
or_else none b = b
or_else (some a) b = some a

-- No key stands twice, in the collection and in each of its profiles.
pub record IsCollection (collection : Collection) : Type 0 where
  pub profiles_table : IsTable collection.profiles
  pub properties_table :
      (p : Bytes) (profile : Profile)
      → find p collection.profiles ≡ some profile
      → IsTable profile.properties

pub or_else-none : (a : Option Bytes) → or_else a none ≡ a
or_else-none none = refl
or_else-none (some a) = refl

combined_value :
    (k : Bytes) (d s : Option Property)
    → value_of (merged_at combine_property k d s) ≡ or_else (value_of s) (value_of d)
unfolding combine_property property_merge
combined_value k d none = refl
combined_value k d (some s) = refl

property_value-merge :
    (k : Bytes) (source dest : Table Property)
    → IsTable source
    → value_of (find k (merge_properties dest source))
      ≡ or_else (value_of (find k source)) (value_of (find k dest))
property_value-merge k source dest h = rw merge_properties-eq (
    rw (find-merge_with combine_property k source dest h)
      (combined_value k (find k dest) (find k source)))

combined_profile :
    (p k : Bytes) (d s : Option Profile)
    → ((profile : Profile) → s ≡ some profile → IsTable profile.properties)
    → value_of (property_in (merged_at combine_profile p d s) k)
      ≡ or_else (value_of (property_in s k)) (value_of (property_in d k))
unfolding combine_profile profile_merge profile_new find
combined_profile p k d none h = refl
combined_profile p k none (some s) h = property_value-merge k s.properties [] (h s refl)
combined_profile p k (some d) (some s) h =
    property_value-merge k s.properties d.properties (h s refl)

pub value-collection_merge :
    (dest source : Collection) (p k : Bytes)
    → IsCollection source
    → value_of (property_at (collection_merge dest source) p k)
      ≡ or_else (value_of (property_at source p k)) (value_of (property_at dest p k))
unfolding collection_merge
value-collection_merge dest source p k h = rw merge_profiles-eq (
    rw (find-merge_with combine_profile p source.profiles dest.profiles h.profiles_table)
      (combined_profile p k (find p dest.profiles) (find p source.profiles) (h.properties_table p)))

-- The merge of a configuration file's and a credentials file's collections, in each of which no key
-- stands twice, holds at every profile and property name the value of the credentials file where
-- that has one, that of the configuration file where only that has one, and none otherwise.
pub new_from_merge-value :
    (config credentials : Collection) (p k : Bytes)
    → IsCollection config
    → IsCollection credentials
    → value_of (property_at (collection_new_from_merge (some config) (some credentials)) p k)
      ≡ or_else (value_of (property_at credentials p k)) (value_of (property_at config p k))
unfolding collection_new_from_merge find
new_from_merge-value config credentials p k hc hr =
    let empty : Collection = record { profile_source = no_source; profiles = [] } in
    value-collection_merge (collection_merge empty config) credentials p k hr
    ∙ ap (or_else (value_of (property_at credentials p k))) (
        value-collection_merge empty config p k hc
        ∙ or_else-none (value_of (property_at config p k)))
