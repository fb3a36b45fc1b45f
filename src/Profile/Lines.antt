-- ===== src/Profile/Lines.antt =====
-- The three kinds of lines: s_parse_profile_declaration, s_parse_property_continuation and
-- s_parse_property of source/aws_profile.c. Each returns whether the line is of its kind, and the
-- context behind it.
use aws_c_auth.Common.{
  Bool, true, false, not, ◌&&◌, Option, none, some, Bytes, codes, length, put, ltb, ◌==◌,
  if◌then◌else◌,
}
use aws_c_auth.External.{Library}
use aws_c_auth.Profile.Chars.{
  is_assignment_operator, is_not_assignment_operator, is_identifier, is_whitespace,
  is_profile_start, is_not_profile_end, is_default_profile_name, parse_by_character_predicate,
  consumed_any, parse_by_token, trim_trailing_comment, trim_trailing_whitespace_comment,
}
use aws_c_auth.Profile.Collection.{
  Property, Profile, Collection, is_config, is_credentials, property_add_continuation,
  property_add_sub_property, profile_add_property, profile_get_property, collection_get_profile,
  collection_add_profile,
}

-- `parse_error` of the context; `no_error` is AWS_ERROR_SUCCESS
pub data ParseError : Type 0 where
  no_error recoverable_error fatal_error : ParseError

-- struct profile_file_parse_context, less what is only logged. The current property is one of the
-- current profile, and both are given by name.
pub record Context : Type 0 where
  pub collection : Collection
  pub current_profile : Option Bytes
  pub current_property : Option Bytes
  pub parse_error : ParseError
  pub has_seen_profile : Bool

-- What the pointers `current_profile` and `current_property` lead to.
pub record Current : Type 0 where
  pub profile_name : Bytes
  pub property_name : Bytes
  pub profile : Profile
  pub property : Property

abbrev pub fail : Context → ParseError → Bool × Context
fail context error = (true, record context { parse_error = error })

module _ (c : Library) where
  -- the part of s_parse_profile_declaration behind the name
  unfoldable pub finish_declaration : Context → Bytes → Bool → Bytes → Bool × Context
  finish_declaration context profile_name has_prefix cursor =
      let (_, cursor) = parse_by_character_predicate cursor is_whitespace 0 in
      let (invalid_chars, cursor) = parse_by_character_predicate cursor is_not_profile_end 0 in
      if length cursor == 0
      then fail context fatal_error
      else if ltb 0 (length invalid_chars)
      then fail context recoverable_error
      else let (collection, current) =
          collection_add_profile context.collection profile_name has_prefix in
        (true, record context { collection = collection; current_profile = current })

  -- the part that reads the name, once the prefix has been looked for
  unfoldable pub parse_profile_name : Context → Bool → Bytes → Bool × Context
  parse_profile_name context has_prefix cursor =
      let (profile_name, cursor) = parse_by_character_predicate cursor is_identifier 0 in
      if not (consumed_any profile_name)
      then fail context recoverable_error
      else if is_config context.collection.profile_source
          && not has_prefix
          && not (is_default_profile_name profile_name)
      then fail context recoverable_error
      else finish_declaration context profile_name has_prefix cursor

  -- The cursor behind "profile" and at least one whitespace character, if they are there.
  unfoldable pub parse_profile_prefix : Bytes → Option Bytes
  parse_profile_prefix cursor = elim (parse_by_token cursor (codes "profile")) [
    | none ↦ none
    | some behind ↦
        let (spaces, rest) = parse_by_character_predicate behind is_whitespace 1 in
        if consumed_any spaces then some rest else none
  ]

  -- the part of s_parse_profile_declaration behind '['
  unfoldable pub parse_declaration_body : Context → Bytes → Bool × Context
  parse_declaration_body context cursor =
      let (_, cursor) = parse_by_character_predicate cursor is_whitespace 0 in
      elim (parse_profile_prefix cursor) [
        | none ↦ parse_profile_name context false cursor
        | some behind ↦
            if is_credentials context.collection.profile_source
            then fail context recoverable_error
            else parse_profile_name context true
                (parse_by_character_predicate behind is_whitespace 0).1
      ]

  -- s_parse_profile_declaration
  unfoldable pub parse_profile_declaration : Bytes → Context → Bool × Context
  parse_profile_declaration line context =
      let cursor = c.right_trim_pred (trim_trailing_comment line) is_whitespace in
      let (start, cursor) = parse_by_character_predicate cursor is_profile_start 1 in
      if not (consumed_any start)
      then (false, context)
      else parse_declaration_body
          (record context {
            has_seen_profile = true;
            current_profile = none;
            current_property = none;
          })
          cursor

  -- The profile and the property that the context points to: their names and contents.
  unfoldable pub current : Context → Option Current
  current context = elim context.current_profile [
    | none ↦ none
    | some profile_name ↦ elim context.current_property [
      | none ↦ none
      | some property_name ↦ elim (collection_get_profile context.collection profile_name) [
        | none ↦ none
        | some profile ↦ elim (profile_get_property profile property_name) [
          | none ↦ none
          | some property ↦ some (record {
            profile_name = profile_name;
            property_name = property_name;
            profile = profile;
            property = property;
          })
        ]
      ]
    ]
  ]

  -- a property changed in place, through the pointers of the context
  unfoldable pub write_property : Context → Current → Property → Context
  write_property context at property = record context {
    collection = record context.collection {
      profiles =
          put at.profile_name
            (record at.profile { properties = put at.property_name property at.profile.properties })
            context.collection.profiles;
    };
  }

  -- the sub property of a property whose own value is empty
  unfoldable pub parse_sub_property : Context → Current → Property → Bytes → Bool × Context
  parse_sub_property context at property cursor =
      let (key, cursor) = parse_by_character_predicate cursor is_not_assignment_operator 0 in
      if not (consumed_any key)
      then fail context fatal_error
      else let (assignment, cursor) =
          parse_by_character_predicate cursor is_assignment_operator 1 in
        if not (consumed_any assignment)
        then fail context fatal_error
        else let trimmed_key = c.right_trim_pred key is_whitespace in
          if ltb 0 (length (c.trim_pred trimmed_key is_identifier))
          then fail context recoverable_error
          else let (_, value) = parse_by_character_predicate cursor is_whitespace 0 in
            (true, write_property context at (property_add_sub_property property trimmed_key value))

  -- s_parse_property_continuation
  unfoldable pub parse_property_continuation : Bytes → Context → Bool × Context
  parse_property_continuation line context =
      let cursor = c.right_trim_pred line is_whitespace in
      let (spaces, cursor) = parse_by_character_predicate cursor is_whitespace 0 in
      if not (consumed_any spaces)
      then (false, context)
      else if length cursor == 0
      then fail context recoverable_error
      else elim (current context) [
        | none ↦ fail context fatal_error
        | some at ↦
            let continued = property_add_continuation at.property cursor in
            let context' = write_property context at continued in
            if at.property.is_empty_valued
            then parse_sub_property context' at continued cursor
            else (true, context')
      ]

  -- the end of s_parse_property: apply the property to the current profile
  unfoldable pub apply_property : Context → Bytes → Bytes → Context
  apply_property context key value = elim context.current_profile [
    | none ↦ record context {
      parse_error = if context.has_seen_profile then recoverable_error else fatal_error;
    }
    | some profile_name ↦ elim (collection_get_profile context.collection profile_name) [
      | none ↦ context
      | some profile ↦ record context {
        collection = record context.collection {
          profiles =
              put profile_name (profile_add_property profile key value) context.collection.profiles;
        };
        current_property = some key;
      }
    ]
  ]

  -- s_parse_property
  unfoldable pub parse_property : Bytes → Context → Bool × Context
  parse_property line context =
      let cursor = c.right_trim_pred (trim_trailing_whitespace_comment line) is_whitespace in
      let context = record context { current_property = none } in
      let (key, cursor) = parse_by_character_predicate cursor is_not_assignment_operator 0 in
      if not (consumed_any key)
      then fail context fatal_error
      else let trimmed_key = c.right_trim_pred key is_whitespace in
        if ltb 0 (length (c.trim_pred trimmed_key is_identifier))
        then fail context recoverable_error
        else let (assignment, cursor) =
            parse_by_character_predicate cursor is_assignment_operator 1 in
          if not (consumed_any assignment)
          then fail context fatal_error
          else let (_, value) = parse_by_character_predicate cursor is_whitespace 0 in
            (true, apply_property context trimmed_key value)
