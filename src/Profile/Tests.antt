-- ===== src/Profile/Tests.antt =====
-- Sample files: the theorems of the profile modules at concrete values.
use aws_c_auth.Common.{
  Bool, true, false, List, [], ◌∷◌, ◌++◌, Option, none, some, Bytes, codes, bytes_eq, all, put,
  find, remove, if◌then◌else◌, ◌≡◌, ◌≢◌, refl, subst,
}
use aws_c_auth.External.Example.{split, prepend, sample, left_trim, right_trim}
use aws_c_auth.Profile.Chars.{
  is_whitespace, is_identifier, parse_by_character_predicate, is_default_profile_name,
  is_assignment_operator, is_not_assignment_operator, is_comment_token, is_not_comment_token,
  is_profile_start, is_not_profile_end, is_carriage_return, span, consumed_any, parse_by_token,
  trim_trailing_comment, trim_trailing_whitespace_comment,
}
use aws_c_auth.Profile.Chars.Consume.{stops, parse_by_character_predicate-maximal}
use aws_c_auth.Profile.Collection.{
  Profile, Collection, config, credentials, property_new, profile_new, collection_add_profile,
  collection_get_profile, add_default_profile, add_or_reuse, profile_get_property,
  profile_add_property, property_add_continuation, property_add_sub_property,
}
use aws_c_auth.Profile.Collection.Default.{default_name, default_outcome, add_default_profile-cases}
use aws_c_auth.Profile.Merge.{collection_new_from_merge}
use aws_c_auth.Profile.Merge.Lookup.{
  IsTable, IsCollection, property_at, value_of, or_else, new_from_merge-value,
}
use aws_c_auth.Profile.Lines.{
  Context, parse_profile_declaration, parse_declaration_body, parse_profile_prefix,
  parse_profile_name, finish_declaration, current, write_property, parse_sub_property,
  parse_property_continuation, apply_property, parse_property,
}
use aws_c_auth.Profile.File.{
  collection_new_from_buffer, apply_line, apply_lines, start, parse_line, is_comment_line,
  is_whitespace_line,
}
use aws_c_auth.Profile.File.Pointers.{IsAnchored, apply_line-IsAnchored}

consume_example :
    let (consumed, rest) = parse_by_character_predicate (codes "key==value") is_identifier 1 in
    (consumed ++ rest ≡ codes "key==value")
    × (all is_identifier consumed ≡ true)
    × (stops is_identifier rest ≡ true)
consume_example = parse_by_character_predicate-maximal (codes "key==value") is_identifier 1

abbrev with_default : Collection
with_default = record {
  profile_source = config;
  profiles = (default_name, profile_new default_name false) ∷ [];
}

default_example :
    ((
      collection_get_profile (collection_add_profile with_default default_name true).0 default_name,
      (collection_add_profile with_default default_name true).1,
    )
      ≡ default_outcome true (collection_get_profile with_default default_name))
    × (codes "a" ≢ default_name
        → collection_get_profile
            (collection_add_profile with_default default_name true).0
            (codes "a")
          ≡ collection_get_profile with_default (codes "a"))
default_example = add_default_profile-cases with_default true (codes "a") refl

abbrev line : Bytes
line = codes "[ default ]"

apply_line_example : IsAnchored (apply_line sample (start credentials) line)
apply_line_example = apply_line-IsAnchored sample (start credentials) line tt

abbrev profile_with : Bytes → Bytes → Profile
profile_with key value = record (profile_new default_name false) {
  properties = (key, property_new key value) ∷ [];
}

abbrev collection_with : Bytes → Bytes → Collection
collection_with key value = record {
  profile_source = config;
  profiles = (default_name, profile_with key value) ∷ [];
}

found : {p q : Profile} (t : Bool) → (if t then some p else none) ≡ some q → p ≡ q
found true e = cc
found false e = cc

collection_with-IsCollection : (key value : Bytes) → IsCollection (collection_with key value)
unfolding find
collection_with-IsCollection key value = record {
  profiles_table = (refl, tt);
  properties_table = λ p profile e.
      subst (λ q. IsTable q.properties) (found (bytes_eq default_name p) e) (refl, tt);
}

merge_example :
    value_of (
      property_at
        (collection_new_from_merge
          (some (collection_with (codes "region") (codes "a")))
          (some (collection_with (codes "region") (codes "b"))))
        default_name
        (codes "region"))
    ≡ or_else
        (value_of (
          property_at (collection_with (codes "region") (codes "b")) default_name (codes "region")))
        (value_of (
          property_at (collection_with (codes "region") (codes "a")) default_name (codes "region")))
merge_example =
    new_from_merge-value (collection_with (codes "region") (codes "a"))
      (collection_with (codes "region") (codes "b")) default_name (codes "region")
      (collection_with-IsCollection (codes "region") (codes "a"))
      (collection_with-IsCollection (codes "region") (codes "b"))

abbrev file_lines : List Bytes
file_lines = codes "[default]" ∷ codes "s3 =" ∷ codes "  a = b" ∷ codes "region = x" ∷ []

abbrev context_or : Context → Option Context → Context
context_or x none = x
context_or x (some y) = y

abbrev file_context : Context
file_context = context_or (start credentials) (apply_lines sample (start credentials) file_lines)

file_read : apply_lines sample (start credentials) file_lines ≡ some file_context
unfolding apply_lines apply_line parse_line parse_profile_declaration parse_declaration_body
    parse_profile_prefix parse_profile_name finish_declaration collection_add_profile
    add_default_profile add_or_reuse current write_property parse_sub_property
    parse_property_continuation apply_property parse_property is_comment_line is_whitespace_line
    collection_get_profile profile_get_property profile_add_property property_new
    property_add_continuation property_add_sub_property profile_new find put remove bytes_eq codes
    all left_trim right_trim is_assignment_operator is_not_assignment_operator is_identifier
    is_whitespace is_comment_token is_not_comment_token is_profile_start is_not_profile_end
    is_carriage_return is_default_profile_name span parse_by_character_predicate consumed_any
    parse_by_token trim_trailing_comment trim_trailing_whitespace_comment
file_read = refl

abbrev file_bytes : Bytes
file_bytes = codes "[default]" ++ (b'\n' ∷ codes "region = x")

abbrev collection_or : Collection → Option Collection → Collection
collection_or x none = x
collection_or x (some y) = y

abbrev file_collection : Collection
file_collection =
    collection_or with_default (collection_new_from_buffer sample file_bytes credentials)

buffer_read : collection_new_from_buffer sample file_bytes credentials ≡ some file_collection
unfolding collection_new_from_buffer split prepend apply_lines apply_line parse_line
    parse_profile_declaration parse_declaration_body parse_profile_prefix parse_profile_name
    finish_declaration collection_add_profile add_default_profile add_or_reuse current
    write_property parse_sub_property parse_property_continuation apply_property parse_property
    is_comment_line is_whitespace_line collection_get_profile profile_get_property
    profile_add_property property_new property_add_continuation property_add_sub_property
    profile_new find put remove bytes_eq codes all left_trim right_trim is_assignment_operator
    is_not_assignment_operator is_identifier is_whitespace is_comment_token is_not_comment_token
    is_profile_start is_not_profile_end is_carriage_return is_default_profile_name span
    parse_by_character_predicate consumed_any parse_by_token trim_trailing_comment
    trim_trailing_whitespace_comment
buffer_read = refl
