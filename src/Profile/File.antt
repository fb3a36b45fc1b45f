-- ===== src/Profile/File.antt =====
-- A whole file: s_parse_and_apply_line_to_profile_collection and
-- s_aws_profile_collection_new_internal of source/aws_profile.c.
pub mod Pointers
pub mod Tables
pub mod Keys
use aws_c_auth.Common.{
  Bool, true, false, ◌||◌, List, [], ◌∷◌, Option, none, some, Bytes, length, ◌==◌, if◌then◌else◌,
}
use aws_c_auth.External.{Library}
use aws_c_auth.Profile.Chars.{is_carriage_return, is_comment_token, is_whitespace}
use aws_c_auth.Profile.Collection.{Source, Collection}
use aws_c_auth.Profile.Lines.{
  ParseError, no_error, fatal_error, Context, parse_profile_declaration,
  parse_property_continuation, parse_property,
}

-- s_is_comment_line; the source reads the first byte of a line that is not empty
unfoldable pub is_comment_line : Bytes → Bool
is_comment_line [] = false
is_comment_line (first ∷ _) = is_comment_token first

abbrev pub is_fatal : ParseError → Bool
is_fatal fatal_error = true
is_fatal _ = false

abbrev pub start : Source → Context
start source = record {
  collection = record { profile_source = source; profiles = [] };
  current_profile = none;
  current_property = none;
  parse_error = no_error;
  has_seen_profile = false;
}

abbrev pub collection_of : Option Context → Option Collection
collection_of none = none
collection_of (some context) = some context.collection

module _ (c : Library) where
  -- s_is_whitespace_line
  unfoldable pub is_whitespace_line : Bytes → Bool
  is_whitespace_line line = length (c.left_trim_pred line is_whitespace) == 0

  -- the three parsers in turn, of which the first that knows the line ends the row
  unfoldable pub parse_line : Bytes → Context → Context
  parse_line line context =
      let (is_declaration, declared) = parse_profile_declaration c line context in
      if is_declaration
      then declared
      else let (is_continuation, continued) = parse_property_continuation c line declared in
        if is_continuation
        then continued
        else let (is_property, applied) = parse_property c line continued in
          if is_property then applied else record applied { parse_error = fatal_error }

  -- s_parse_and_apply_line_to_profile_collection
  unfoldable pub apply_line : Context → Bytes → Context
  apply_line context line_cursor =
      let line = c.right_trim_pred line_cursor is_carriage_return in
      if length line == 0 || is_comment_line line || is_whitespace_line line
      then context
      else parse_line line context

  -- the loop over the lines; `none` is the NULL of a fatal error
  unfoldable pub apply_lines : Context → List Bytes → Option Context
  apply_lines context [] = some context
  apply_lines context (line ∷ lines) =
      let context' = apply_line context line in
      let rest = apply_lines context' lines in if is_fatal context'.parse_error then none else rest

  -- s_aws_profile_collection_new_internal, aws_profile_collection_new_from_buffer
  unfoldable pub collection_new_from_buffer : Bytes → Source → Option Collection
  collection_new_from_buffer buffer source =
      if length buffer == 0
      then some (start source).collection
      else collection_of (apply_lines (start source) (c.split_on_char buffer b'\n'))
