-- ===== src/Profile/Chars.antt =====
-- The character predicates and the consume helpers of source/aws_profile.c. A byte is read as a
-- `char`, and those above 127 equal none of the characters below either way.
pub mod Consume
use aws_c_auth.Common.{
  ℕ, zero, suc, Bool, true, false, not, ◌&&◌, ◌||◌, [], ◌∷◌, ◌++◌, Option, none, some, Bytes, codes,
  bytes_eq, ltb, leb, ◌==◌, if◌then◌else◌,
}

-- s_is_assignment_operator, s_is_not_assignment_operator
unfoldable pub is_assignment_operator : ℕ → Bool
is_assignment_operator value = value == b'='

unfoldable pub is_not_assignment_operator : ℕ → Bool
unfolding is_assignment_operator
is_not_assignment_operator value = not (is_assignment_operator value)

-- s_is_identifier
unfoldable pub is_identifier : ℕ → Bool
is_identifier value =
    (leb b'A' value && leb value b'Z')
    || (leb b'a' value && leb value b'z')
    || (leb b'0' value && leb value b'9')
    || value == b'\\'
    || value == b'_'
    || value == b'-'

-- s_is_whitespace
unfoldable pub is_whitespace : ℕ → Bool
is_whitespace value = value == b'\t' || value == b'\n' || value == b'\r' || value == b' '

-- s_is_comment_token, s_is_not_comment_token
unfoldable pub is_comment_token : ℕ → Bool
is_comment_token value = value == b'#' || value == b';'

unfoldable pub is_not_comment_token : ℕ → Bool
unfolding is_comment_token
is_not_comment_token value = not (is_comment_token value)

-- s_is_profile_start, s_is_not_profile_end, s_is_carriage_return
unfoldable pub is_profile_start : ℕ → Bool
is_profile_start value = value == b'['

unfoldable pub is_not_profile_end : ℕ → Bool
is_not_profile_end value = not (value == b']')

unfoldable pub is_carriage_return : ℕ → Bool
is_carriage_return value = value == b'\r'

-- s_is_default_profile_name
unfoldable pub is_default_profile_name : Bytes → Bool
is_default_profile_name name = bytes_eq (codes "default") name

-- The longest prefix that satisfies a predicate, and what is behind it.
unfoldable pub span : (ℕ → Bool) → Bytes → Bytes × Bytes
span p [] = ([], [])
span p (x ∷ s) = let (taken, rest) = span p s in if p x then (x ∷ taken, rest) else ([], x ∷ s)

abbrev take_bytes : ℕ → Bytes → Bytes
take_bytes zero s = []
take_bytes (suc n) [] = []
take_bytes (suc n) (x ∷ s) = x ∷ take_bytes n s

abbrev drop_bytes : ℕ → Bytes → Bytes
drop_bytes zero s = s
drop_bytes (suc n) [] = []
drop_bytes (suc n) (x ∷ s) = drop_bytes n s

-- s_parse_by_character_predicate: what was consumed, and the cursor behind it. `result.len`, with
-- which the source compares the maximum, is 0 there.
unfoldable pub parse_by_character_predicate : Bytes → (ℕ → Bool) → ℕ → Bytes × Bytes
parse_by_character_predicate start predicate maximum_allowed =
    let result_len : ℕ = 0 in
    let limited = ltb 0 maximum_allowed && ltb maximum_allowed result_len in
    let region = if limited then take_bytes maximum_allowed start else start in
    let beyond = if limited then drop_bytes maximum_allowed start else [] in
    let (consumed, rest) = span predicate region in (consumed, rest ++ beyond)

-- The function's result: whether anything was consumed.
unfoldable pub consumed_any : Bytes → Bool
consumed_any [] = false
consumed_any (_ ∷ _) = true

-- s_parse_by_token: `none` where the token does not match, and the cursor behind it where it does
unfoldable pub parse_by_token : Bytes → Bytes → Option Bytes
parse_by_token start [] = some start
parse_by_token [] (t ∷ token) = none
parse_by_token (x ∷ start) (t ∷ token) =
    let rest = parse_by_token start token in if x == t then rest else none

-- s_trim_trailing_comment
unfoldable pub trim_trailing_comment : Bytes → Bytes
trim_trailing_comment line = (parse_by_character_predicate line is_not_comment_token 0).0

-- s_trim_trailing_whitespace_comment
unfoldable pub trim_trailing_whitespace_comment : Bytes → Bytes
trim_trailing_whitespace_comment [] = []
trim_trailing_whitespace_comment (x ∷ []) = x ∷ []
trim_trailing_whitespace_comment (x ∷ y ∷ s) =
    let rest = trim_trailing_whitespace_comment (y ∷ s) in
    if is_whitespace x && is_comment_token y then [] else x ∷ rest
