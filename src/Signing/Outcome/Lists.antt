-- ===== src/Signing/Outcome/Lists.antt =====
-- What the property lists of a signing result hold after an append.
use aws_c_auth.Common.{
  List, [], ◌∷◌, ◌++◌, Option, none, some, Bytes, put, find-put, bytes_eq, bytes_eq_iff,
  if◌then◌else◌, ◌≡◌, arith,
}
use aws_c_auth.Signing.Outcome.{
  Property, SigningResult, append_property_list, get_or_create_property_list, get_property_list,
}

abbrev pub list_or_empty : Option (List Property) → List Property
list_or_empty none = []
list_or_empty (some l) = l

-- The properties of a list, none for a list that is not there.
abbrev pub contents : SigningResult → Bytes → List Property
contents result list_name = list_or_empty (get_property_list result list_name)

-- An append to one list puts the property at its end, whether or not the list was there, and
-- leaves the contents of every other list.
pub contents-append_property_list :
    (r : SigningResult) (l l' n v : Bytes)
    → contents (append_property_list r l n v) l' ≡ (
        if bytes_eq l l'
        then contents r l' ++ record { name = n; value = v } ∷ []
        else contents r l')
unfolding append_property_list get_or_create_property_list get_property_list
contents-append_property_list r l l' n v =
    let property : Property = record { name = n; value = v } in
    let old = contents r l in
    ground (
      arith,
      bytes_eq_iff l l',
      find-put l l' (old ++ property ∷ []) r.property_lists,
      find-put l l' (old ++ property ∷ []) (put l [] r.property_lists),
      find-put l l' [] r.property_lists,
    )
