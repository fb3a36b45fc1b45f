-- ===== src/Profile/File/Tables.antt =====
-- Puts and removes keep the tables of a collection free of double keys, and so does declaring a
-- profile.
use aws_c_auth.Common.{
  Bool, true, false, [], ◌∷◌, Option, none, some, Bytes, find, put, remove, find-put, find-remove,
  bytes_eq, bytes_eq_iff, Table, if◌then◌else◌, ◌≡◌, refl, sym, ◌∙◌, subst, arith,
}
use aws_c_auth.Profile.Collection.{
  Profile, Collection, collection_add_profile, add_default_profile, add_or_reuse, profile_new,
}
use aws_c_auth.Profile.Merge.Lookup.{IsTable, IsCollection}

module _ {V : Type 0} where
  pub IsTable-put : (k : Bytes) (v : V) (t : Table V) → IsTable t → IsTable (put k v t)
  unfolding put find
  IsTable-put k v [] h = (refl, tt)
  IsTable-put k v ((j, w) ∷ t) h =
      ground (arith, h, bytes_eq_iff j k, bytes_eq_iff k j, find-put k j v t, IsTable-put k v t h.1)

  IsTable-remove : (k : Bytes) (t : Table V) → IsTable t → IsTable (remove k t)
  unfolding remove
  IsTable-remove k [] h = tt
  IsTable-remove k ((j, w) ∷ t) h = ground (arith, h, find-remove k j t, IsTable-remove k t h.1)

same : {p q : Profile} → Path (Option Profile) (some p) (some q) → p ≡ q
same e = cc

-- What a lookup behind a put, or behind a remove, may find.
found-put :
    (p : Profile) {q : Profile} (t : Bool) {rest : Option Profile}
    → (if t then some p else rest) ≡ some q
    → IsTable p.properties
    → (rest ≡ some q → IsTable q.properties)
    → IsTable q.properties
found-put p true e h old = subst (λ x. IsTable x.properties) (same e) h
found-put p false e h old = old e

pub put-IsCollection :
    (x : Collection) (n : Bytes) (p : Profile)
    → IsCollection x
    → IsTable p.properties
    → IsCollection (record x { profiles = put n p x.profiles })
put-IsCollection x n p h hp = record {
  profiles_table = IsTable-put n p x.profiles h.profiles_table;
  properties_table = λ k q e.
      found-put p (bytes_eq n k) (sym (find-put n k p x.profiles) ∙ e) hp (h.properties_table k q);
}

found-remove :
    {q : Profile} (t : Bool) {rest : Option Profile}
    → (if t then none else rest) ≡ some q
    → rest ≡ some q
found-remove true e = cc
found-remove false e = e

remove-IsCollection :
    (x : Collection) (n : Bytes)
    → IsCollection x
    → IsCollection (record x { profiles = remove n x.profiles })
remove-IsCollection x n h = record {
  profiles_table = IsTable-remove n x.profiles h.profiles_table;
  properties_table = λ k q e.
      h.properties_table k q (found-remove (bytes_eq n k) (sym (find-remove n k x.profiles) ∙ e));
}

add_or_reuse-IsCollection :
    (x : Collection) (name : Bytes) (has_prefix : Bool) (existing : Option Profile)
    → IsCollection x
    → IsCollection (add_or_reuse x name has_prefix existing).0
unfolding add_or_reuse profile_new
add_or_reuse-IsCollection x name has_prefix none h = put-IsCollection x name _ h tt
add_or_reuse-IsCollection x name has_prefix (some p) h = h

add_default_profile-IsCollection :
    (x : Collection) (name : Bytes) (has_prefix : Bool) (existing : Option Profile)
    → IsCollection x
    → IsCollection (add_default_profile x name has_prefix existing).0
unfolding add_default_profile
add_default_profile-IsCollection x name has_prefix none h =
    add_or_reuse-IsCollection x name has_prefix none h
add_default_profile-IsCollection x name has_prefix (some p) h = ground (
  arith,
  h,
  add_or_reuse-IsCollection x name has_prefix (some p) h,
  add_or_reuse-IsCollection (record x { profiles = remove name x.profiles }) name has_prefix none
      (remove-IsCollection x name h),
)

pub add_profile-IsCollection :
    (x : Collection) (name : Bytes) (has_prefix : Bool)
    → IsCollection x
    → IsCollection (collection_add_profile x name has_prefix).0
unfolding collection_add_profile
add_profile-IsCollection x name has_prefix h = ground (
  arith,
  add_default_profile-IsCollection x name has_prefix (find name x.profiles) h,
  add_or_reuse-IsCollection x name has_prefix (find name x.profiles) h,
)
