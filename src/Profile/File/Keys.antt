-- ===== src/Profile/File/Keys.antt =====
-- No key stands twice in a collection that is read from a file.
use aws_c_auth.Common.{
  Bool, true, false, List, [], ◌∷◌, Option, none, some, Bytes, length, ◌==◌, find, if◌then◌else◌,
  ◌≡◌, refl, subst, arith, Option-cases, inl, inr,
}
use aws_c_auth.External.{Library}
use aws_c_auth.Profile.Chars.{
  trim_trailing_comment, trim_trailing_whitespace_comment, is_not_assignment_operator,
  is_assignment_operator, is_profile_start, parse_by_character_predicate, is_identifier,
  is_whitespace, is_carriage_return,
}
use aws_c_auth.Profile.Collection.{
  Property, Source, Collection, profile_add_property, collection_get_profile,
  property_add_sub_property, property_add_continuation,
}
use aws_c_auth.Profile.Merge.Lookup.{IsTable, IsCollection}
use aws_c_auth.Profile.File.Tables.{IsTable-put, put-IsCollection, add_profile-IsCollection}
use aws_c_auth.Profile.Lines.{
  Context, Current, ParseError, finish_declaration, parse_profile_name, parse_profile_prefix,
  parse_declaration_body, parse_profile_declaration, current, write_property, parse_sub_property,
  parse_property_continuation, apply_property, parse_property,
}
use aws_c_auth.Profile.File.{
  apply_line, parse_line, apply_lines, start, collection_of, collection_new_from_buffer,
}

collection_of-some :
    (m : Option Context) {collection : Collection}
    → collection_of m ≡ some collection
    → (y : Context) × (m ≡ some y) × (y.collection ≡ collection)
collection_of-some none e = cc
collection_of-some (some y) e = (y, refl, cc)

either :
    (t : Bool) {x y : Collection} {m : Option Collection}
    → (if t then some x else m) ≡ some y
    → IsCollection x
    → (m ≡ some y → IsCollection y)
    → IsCollection y
either true e h k = subst IsCollection (cc e) h
either false e h k = k e

module _ (c : Library) where
  abbrev Kept : Bool × Context → Type 0
  Kept r = IsCollection r.1.collection

  -- a declaration starts with both pointers cleared
  abbrev cleared : Context → Context
  cleared x = record x { has_seen_profile = true; current_profile = none; current_property = none }

  finish-Kept :
      (x : Context) (name : Bytes) (has_prefix : Bool) (cursor : Bytes)
      → IsCollection x.collection
      → IsCollection (finish_declaration c (cleared x) name has_prefix cursor).1.collection
  unfolding finish_declaration
  finish-Kept x name has_prefix cursor h =
      ground (arith, h, add_profile-IsCollection x.collection name has_prefix h)

  name-Kept :
      (x : Context) (has_prefix : Bool) (cursor : Bytes)
      → IsCollection x.collection
      → IsCollection (parse_profile_name c (cleared x) has_prefix cursor).1.collection
  unfolding parse_profile_name
  name-Kept x has_prefix cursor h =
      let (name, rest) = parse_by_character_predicate cursor is_identifier 0 in
      ground (arith, h, finish-Kept x name has_prefix rest h)

  body-Kept :
      (x : Context) (cursor : Bytes)
      → IsCollection x.collection
      → IsCollection (parse_declaration_body c (cleared x) cursor).1.collection
  unfolding parse_declaration_body
  body-Kept x cursor h =
      let rest = (parse_by_character_predicate cursor is_whitespace 0).1 in
      elim (Option-cases (parse_profile_prefix c rest)) [
        | inl e ↦ rw (parse_declaration_body, e) (name-Kept x false rest h)
        | inr (behind, e) ↦
            let rest' = (parse_by_character_predicate behind is_whitespace 0).1 in
            rw (parse_declaration_body, e) (ground (arith, h, name-Kept x true rest' h))
      ]

  declaration-Kept :
      (line : Bytes) (x : Context)
      → IsCollection x.collection
      → IsCollection (parse_profile_declaration c line x).1.collection
  unfolding parse_profile_declaration
  declaration-Kept line x h =
      let cursor = c.right_trim_pred (trim_trailing_comment line) is_whitespace in
      let rest = (parse_by_character_predicate cursor is_profile_start 1).1 in
      ground (arith, h, body-Kept x rest h)

  write-Kept :
      (x : Context) (at : Current) (property : Property)
      → IsCollection x.collection
      → IsTable at.profile.properties
      → IsCollection (write_property c x at property).collection
  unfolding write_property
  write-Kept x at property h ht =
      put-IsCollection x.collection at.profile_name _ h
        (IsTable-put at.property_name property at.profile.properties ht)

  -- the profile that a context points to is one of the collection
  current-found :
      (x : Context) (at : Current)
      → current c x ≡ some at
      → find at.profile_name x.collection.profiles ≡ some at.profile
  unfolding current collection_get_profile
  current-found x at e = ground arith

  apply_at-Kept :
      (collection : Collection) (profile : Option Bytes) (e : ParseError) (seen : Bool)
      (key value : Bytes)
      → IsCollection collection
      → IsCollection
          (apply_property c
            (record {
              collection = collection;
              current_profile = profile;
              current_property = none;
              parse_error = e;
              has_seen_profile = seen;
            })
            key
            value).collection
  unfolding apply_property collection_get_profile profile_add_property
  apply_at-Kept collection none e seen key value h = h
  apply_at-Kept collection (some n) e seen key value h =
      elim (Option-cases (find n collection.profiles)) [
        | inl q ↦ rw (apply_property, q) h
        | inr (profile, q) ↦
            rw (apply_property, q)
              (put-IsCollection collection n _ h
                (IsTable-put key _ profile.properties (h.properties_table n profile q)))
      ]

  property-Kept :
      (line : Bytes) (x : Context)
      → IsCollection x.collection
      → IsCollection (parse_property c line x).1.collection
  unfolding parse_property
  property-Kept line x h =
      let cursor = c.right_trim_pred (trim_trailing_whitespace_comment line) is_whitespace in
      let key = parse_by_character_predicate cursor is_not_assignment_operator 0 in
      let assignment = parse_by_character_predicate key.1 is_assignment_operator 1 in
      ground (
        arith,
        h,
        apply_at-Kept x.collection x.current_profile x.parse_error x.has_seen_profile
            (c.right_trim_pred key.0 is_whitespace)
            (parse_by_character_predicate assignment.1 is_whitespace 0).1 h,
      )

  -- the second write replaces the property that the first one left
  sub-Kept :
      (x : Context) (at : Current) (property : Property) (cursor : Bytes)
      → IsCollection x.collection
      → IsTable at.profile.properties
      → IsCollection (parse_sub_property c x at property cursor).1.collection
  unfolding parse_sub_property
  sub-Kept x at property cursor h ht =
      let key = parse_by_character_predicate cursor is_not_assignment_operator 0 in
      let assignment = parse_by_character_predicate key.1 is_assignment_operator 1 in
      ground (
        arith,
        h,
        write-Kept x at
            (property_add_sub_property property (c.right_trim_pred key.0 is_whitespace)
              (parse_by_character_predicate assignment.1 is_whitespace 0).1)
            h ht,
      )

  continuation-Kept :
      (line : Bytes) (x : Context)
      → IsCollection x.collection
      → IsCollection (parse_property_continuation c line x).1.collection
  unfolding parse_property_continuation
  continuation-Kept line x h = elim (Option-cases (current c x)) [
    | inl e ↦ rw (parse_property_continuation, e) (ground (arith, h))
    | inr (at, e) ↦
        let ht = h.properties_table at.profile_name at.profile (current-found x at e) in
        let trimmed = c.right_trim_pred line is_whitespace in
        let cursor = (parse_by_character_predicate trimmed is_whitespace 0).1 in
        let continued = property_add_continuation at.property cursor in
        let written = write-Kept x at continued h ht in
        rw (parse_property_continuation, e)
          (ground (
            arith,
            h,
            written,
            sub-Kept (write_property c x at continued) at continued cursor written ht,
          ))
  ]

  line-Kept :
      (x : Context) (line : Bytes)
      → IsCollection x.collection
      → IsCollection (parse_line c line x).collection
  unfolding parse_line
  line-Kept x line h =
      let declared = parse_profile_declaration c line x in
      let continued = parse_property_continuation c line declared.1 in
      let h' = declaration-Kept line x h in
      let h'' = continuation-Kept line declared.1 h' in
      ground (arith, h', h'', property-Kept line continued.1 h'')

  apply_line-Kept :
      (x : Context) (line : Bytes)
      → IsCollection x.collection
      → IsCollection (apply_line c x line).collection
  unfolding apply_line
  apply_line-Kept x line h =
      ground (arith, h, line-Kept x (c.right_trim_pred line is_carriage_return) h)

  lines-Kept :
      (lines : List Bytes) (x y : Context)
      → IsCollection x.collection
      → apply_lines c x lines ≡ some y
      → IsCollection y.collection
  unfolding apply_lines
  lines-Kept [] x y h e = ground (arith, h)
  lines-Kept (line ∷ lines) x y h e =
      let h' = apply_line-Kept x line h in
      ground (arith, lines-Kept lines (apply_line c x line) y h')

  start-IsCollection : (source : Source) → IsCollection (start source).collection
  unfolding find
  start-IsCollection kind = record { profiles_table = tt; properties_table = λ p profile e. cc e }

  -- In the collection that a file is read into, where reading it does not fail, no profile name
  -- stands twice, and in each of its profiles no property name stands twice.
  pub collection_new_from_buffer-IsCollection :
      (buffer : Bytes) (source : Source) (collection : Collection)
      → collection_new_from_buffer c buffer source ≡ some collection
      → IsCollection collection
  unfolding collection_new_from_buffer
  collection_new_from_buffer-IsCollection buffer kind collection e =
      let lines = c.split_on_char buffer b'\n' in
      either (length buffer == 0) e (start-IsCollection kind) (λ q.
        let (y, read, is) = collection_of-some (apply_lines c (start kind) lines) q in
        subst IsCollection is (lines-Kept lines (start kind) y (start-IsCollection kind) read))
