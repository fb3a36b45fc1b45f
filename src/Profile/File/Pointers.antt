-- ===== src/Profile/File/Pointers.antt =====
-- The pointers of the parse context lead into the collection.
use aws_c_auth.Common.{
  Bool, true, false, List, [], ◌∷◌, Option, none, some, Bytes, find, put, remove, find-put,
  bytes_eq_refl, Table, ◌≡◌, refl, ◌∙◌, arith, Option-cases, inl, inr,
}
use aws_c_auth.External.{Library}
use aws_c_auth.Profile.Chars.{
  trim_trailing_comment, trim_trailing_whitespace_comment, is_not_assignment_operator,
  is_assignment_operator, is_profile_start, parse_by_character_predicate, is_identifier,
  is_whitespace, is_carriage_return,
}
use aws_c_auth.Profile.Collection.{
  Property, Profile, Source, Collection, collection_add_profile, add_default_profile, add_or_reuse,
  profile_new, profile_add_property, property_new, collection_get_profile,
  property_add_sub_property, property_add_continuation,
}
use aws_c_auth.Profile.Lines.{
  Context, Current, ParseError, finish_declaration, parse_profile_name, parse_profile_prefix,
  parse_declaration_body, parse_profile_declaration, current, write_property, parse_sub_property,
  parse_property_continuation, apply_property, parse_property,
}
use aws_c_auth.Profile.File.{is_fatal, apply_line, parse_line, apply_lines, start}

-- Where pointers to a profile and to one of its properties may stand.
abbrev pub Points : Table Profile → Option Bytes → Option Bytes → Type 0
Points t none none = Unit
Points t none (some k) = ⊥
Points t (some n) none = (profile : Profile) × (find n t ≡ some profile)
Points t (some n) (some k) =
    (profile : Profile) × (property : Property) × (find n t ≡ some profile)
    × (find k profile.properties ≡ some property)

-- No pointer dangles: a current profile is one of the collection, and a current property is one of
-- the current profile.
abbrev pub IsAnchored : Context → Type 0
IsAnchored context =
    Points context.collection.profiles context.current_profile context.current_property

find-put_self {ℓ} : {V : Type ℓ} (k : Bytes) (v : V) (t : Table V) → find k (put k v t) ≡ some v
find-put_self k v t = rw find-put (rw (bytes_eq_refl k) refl)

add_or_reuse-Points :
    (collection : Collection) (name : Bytes) (has_prefix : Bool) (existing : Option Profile)
    → ((p : Profile) → existing ≡ some p → find name collection.profiles ≡ some p)
    → Points
        (add_or_reuse collection name has_prefix existing).0.profiles
        (add_or_reuse collection name has_prefix existing).1
        none
unfolding add_or_reuse
add_or_reuse-Points collection name has_prefix none h =
    (profile_new name has_prefix, find-put_self name _ collection.profiles)
add_or_reuse-Points collection name has_prefix (some p) h = (p, h p refl)

add_default_profile-Points :
    (collection : Collection) (name : Bytes) (has_prefix : Bool) (existing : Option Profile)
    → find name collection.profiles ≡ existing
    → Points
        (add_default_profile collection name has_prefix existing).0.profiles
        (add_default_profile collection name has_prefix existing).1
        none
unfolding add_default_profile
add_default_profile-Points collection name has_prefix none e =
    add_or_reuse-Points collection name has_prefix none (λ p q. cc)
add_default_profile-Points collection name has_prefix (some p) e = ground (
  arith,
  add_or_reuse-Points (record collection { profiles = remove name collection.profiles }) name
      has_prefix none (λ p q. cc),
  add_or_reuse-Points collection name has_prefix (some p) (λ q r. e ∙ r),
)

add_profile-Points :
    (collection : Collection) (name : Bytes) (has_prefix : Bool)
    → Points
        (collection_add_profile collection name has_prefix).0.profiles
        (collection_add_profile collection name has_prefix).1
        none
unfolding collection_add_profile
add_profile-Points collection name has_prefix = ground (
  arith,
  add_default_profile-Points collection name has_prefix (find name collection.profiles) refl,
  add_or_reuse-Points collection name has_prefix (find name collection.profiles) (λ p q. q),
)

module _ (c : Library) where
  -- a declaration starts with both pointers cleared
  abbrev cleared : Context → Context
  cleared x = record x { has_seen_profile = true; current_profile = none; current_property = none }

  finish-IsAnchored :
      (x : Context) (name : Bytes) (has_prefix : Bool) (cursor : Bytes)
      → IsAnchored (finish_declaration c (cleared x) name has_prefix cursor).1
  unfolding finish_declaration
  finish-IsAnchored x name has_prefix cursor =
      ground (arith, add_profile-Points x.collection name has_prefix)

  name-IsAnchored :
      (x : Context) (has_prefix : Bool) (cursor : Bytes)
      → IsAnchored (parse_profile_name c (cleared x) has_prefix cursor).1
  unfolding parse_profile_name
  name-IsAnchored x has_prefix cursor =
      let (name, rest) = parse_by_character_predicate cursor is_identifier 0 in
      ground (arith, finish-IsAnchored x name has_prefix rest)

  body-IsAnchored :
      (x : Context) (cursor : Bytes) → IsAnchored (parse_declaration_body c (cleared x) cursor).1
  unfolding parse_declaration_body
  body-IsAnchored x cursor =
      let rest = (parse_by_character_predicate cursor is_whitespace 0).1 in
      elim (Option-cases (parse_profile_prefix c rest)) [
        | inl e ↦ rw (parse_declaration_body, e) (name-IsAnchored x false rest)
        | inr (behind, e) ↦
            let rest' = (parse_by_character_predicate behind is_whitespace 0).1 in
            rw (parse_declaration_body, e) (ground (arith, name-IsAnchored x true rest'))
      ]

  declaration-IsAnchored :
      (line : Bytes) (x : Context)
      → IsAnchored x
      → IsAnchored (parse_profile_declaration c line x).1
  unfolding parse_profile_declaration
  declaration-IsAnchored line x h =
      let cursor = c.right_trim_pred (trim_trailing_comment line) is_whitespace in
      let rest = (parse_by_character_predicate cursor is_profile_start 1).1 in
      ground (arith, h, body-IsAnchored x rest)

  write-IsAnchored :
      (x : Context) (at : Current) (property : Property)
      → x.current_profile ≡ some at.profile_name
      → x.current_property ≡ some at.property_name
      → IsAnchored (write_property c x at property)
  unfolding write_property
  write-IsAnchored x at property e f = rw e (
      rw f (
        record at.profile { properties = put at.property_name property at.profile.properties },
        property,
        find-put_self at.profile_name _ x.collection.profiles,
        find-put_self at.property_name property at.profile.properties,
      ))

  apply_at-IsAnchored :
      (collection : Collection) (profile : Option Bytes) (e : ParseError) (seen : Bool)
      (key value : Bytes)
      → Points collection.profiles profile none
      → IsAnchored (
          apply_property c
            (record {
              collection = collection;
              current_profile = profile;
              current_property = none;
              parse_error = e;
              has_seen_profile = seen;
            })
            key
            value)
  unfolding apply_property collection_get_profile profile_add_property
  apply_at-IsAnchored collection none e seen key value h = tt
  apply_at-IsAnchored collection (some n) e seen key value (profile, found) =
      rw (apply_property, found)
        (
          record profile { properties = put key (property_new key value) profile.properties },
          property_new key value,
          find-put_self n _ collection.profiles,
          find-put_self key _ profile.properties,
        )

  -- what the pointers of a context lead to, where they lead somewhere
  current-names :
      (x : Context) (at : Current)
      → current c x ≡ some at
      → (x.current_profile ≡ some at.profile_name) × (x.current_property ≡ some at.property_name)
  unfolding current
  current-names x at e = ground arith

  Points-profile : (t : Table Profile) (p k : Option Bytes) → Points t p k → Points t p none
  Points-profile t none none h = tt
  Points-profile t none (some k) h = absurd h
  Points-profile t (some n) none h = h
  Points-profile t (some n) (some k) (profile, property, e, f) = (profile, e)

  property-IsAnchored :
      (line : Bytes) (x : Context) → IsAnchored x → IsAnchored (parse_property c line x).1
  unfolding parse_property
  property-IsAnchored line x h =
      let h' = Points-profile x.collection.profiles x.current_profile x.current_property h in
      let key =
        (parse_by_character_predicate
          (c.right_trim_pred (trim_trailing_whitespace_comment line) is_whitespace)
          is_not_assignment_operator 0) in
      let assignment = parse_by_character_predicate key.1 is_assignment_operator 1 in
      ground (
        arith,
        h',
        apply_at-IsAnchored x.collection x.current_profile x.parse_error x.has_seen_profile
            (c.right_trim_pred key.0 is_whitespace)
            (parse_by_character_predicate assignment.1 is_whitespace 0).1 h',
      )

  sub-IsAnchored :
      (x : Context) (at : Current) (property : Property) (cursor : Bytes)
      → IsAnchored x
      → x.current_profile ≡ some at.profile_name
      → x.current_property ≡ some at.property_name
      → IsAnchored (parse_sub_property c x at property cursor).1
  unfolding parse_sub_property
  sub-IsAnchored x at property cursor h e f =
      let written = λ (p : Property). write-IsAnchored x at p e f in
      let key = parse_by_character_predicate cursor is_not_assignment_operator 0 in
      let assignment = parse_by_character_predicate key.1 is_assignment_operator 1 in
      ground (
        arith,
        h,
        written (
            property_add_sub_property property (c.right_trim_pred key.0 is_whitespace)
              (parse_by_character_predicate assignment.1 is_whitespace 0).1),
      )

  continuation-IsAnchored :
      (line : Bytes) (x : Context)
      → IsAnchored x
      → IsAnchored (parse_property_continuation c line x).1
  unfolding parse_property_continuation write_property
  continuation-IsAnchored line x h = elim (Option-cases (current c x)) [
    | inl e ↦ rw (parse_property_continuation, e) (ground (arith, h))
    | inr (at, e) ↦
        let names = current-names x at e in
        let written = λ (p : Property). write-IsAnchored x at p names.0 names.1 in
        let cursor =
          (parse_by_character_predicate (c.right_trim_pred line is_whitespace) is_whitespace 0).1 in
        let continued = property_add_continuation at.property cursor in
        rw (parse_property_continuation, e)
          (ground (
            arith,
            h,
            written continued,
            sub-IsAnchored (write_property c x at continued) at continued cursor (written continued)
                names.0 names.1,
          ))
  ]

  parse_line-IsAnchored :
      (line : Bytes) (x : Context) → IsAnchored x → IsAnchored (parse_line c line x)
  unfolding parse_line
  parse_line-IsAnchored line x h =
      let declared = parse_profile_declaration c line x in
      let continued = parse_property_continuation c line declared.1 in
      let h' = declaration-IsAnchored line x h in
      let h'' = continuation-IsAnchored line declared.1 h' in
      ground (arith, h', h'', property-IsAnchored line continued.1 h'')

  -- Whatever a line holds, and whatever the trimming functions of the library return, applying the
  -- line keeps the parse context free of dangling pointers: if the current profile is one of the
  -- collection, and the current property one of that profile, then so they are behind the line.
  pub apply_line-IsAnchored :
      (x : Context) (line : Bytes) → IsAnchored x → IsAnchored (apply_line c x line)
  unfolding apply_line
  apply_line-IsAnchored x line h =
      ground (arith, h, parse_line-IsAnchored (c.right_trim_pred line is_carriage_return) x h)

  kept :
      (lines : List Bytes) (x y : Context)
      → IsAnchored x
      → is_fatal x.parse_error ≡ false
      → apply_lines c x lines ≡ some y
      → IsAnchored y × (is_fatal y.parse_error ≡ false)
  unfolding apply_lines
  kept [] x y h f e = ground (arith, h)
  kept (line ∷ lines) x y h f e =
      let h' = apply_line-IsAnchored x line h in
      ground (arith, kept lines (apply_line c x line) y h')

  -- The context behind a whole file, where it is not given up for a fatal error, has no dangling
  -- pointer and no fatal error.
  pub apply_lines-IsAnchored :
      (source : Source) (lines : List Bytes) (x : Context)
      → apply_lines c (start source) lines ≡ some x
      → IsAnchored x × (is_fatal x.parse_error ≡ false)
  apply_lines-IsAnchored source lines x e = kept lines (start source) x tt refl e
