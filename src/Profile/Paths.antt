-- ===== src/Profile/Paths.antt =====
-- The paths of profile files and the name of the profile: the last part of source/aws_profile.c.
pub mod Resolution
use aws_c_auth.Common.{
  ℕ, zero, suc, ◌+◌, ◌-◌, Bool, true, false, ◌&&◌, List, [], ◌∷◌, ◌++◌, map, Option, none, some,
  Bytes, codes, length, ltb, ◌==◌, if◌then◌else◌, Result, ok, err, ◌>>=◌,
}
use aws_c_auth.External.{ByteBuf, buf_init, Library}
use aws_c_auth.Profile.Collection.{Source, Collection}
use aws_c_auth.Profile.File.{collection_new_from_buffer}

-- What the operating system and aws-c-common's routines on it give: the separators of paths, the home
-- directory, the environment variables and the contents of files; `none` is a failure or NULL.
pub record Platform : Type 0 where
  pub directory_separator : ℕ
  pub is_any_directory_separator : ℕ → Bool
  pub home_directory : Option Bytes
  pub environment_value : Bytes → Option Bytes
  pub file_contents : Bytes → Option Bytes

-- `segment_cursor.len == 1 && *segment_cursor.ptr == '~'`
unfoldable pub is_home_segment : Bytes → Bool
is_home_segment [] = false
is_home_segment (x ∷ []) = x == b'~'
is_home_segment (x ∷ y ∷ s) = false

module _ (c : Library) (platform : Platform) where
  -- the copy of the path, with one kind of separator
  unfoldable pub local_path : Bytes → Bytes
  local_path [] = []
  local_path (x ∷ s) =
      (if platform.is_any_directory_separator x then platform.directory_separator else x)
      ∷ local_path s

  -- the lengths of the segments behind the first, which stand for themselves
  unfoldable pub segment_lengths : List Bytes → ℕ
  segment_lengths [] = 0
  segment_lengths (segment ∷ segments) = length segment + segment_lengths segments

  -- the first loop: the length of the final string without separators, `none` where the home directory
  -- is wanted and not there
  unfoldable pub final_string_length : List Bytes → Option ℕ
  final_string_length [] = some 0
  final_string_length (first ∷ rest) =
      if is_home_segment first
      then elim platform.home_directory [
        | none ↦ none
        | some home ↦ some (length home + segment_lengths rest)
      ]
      else some (length first + segment_lengths rest)

  -- the second loop behind the first segment; the flag is whether this segment is the first
  unfoldable pub append_segments : List Bytes → ByteBuf → Result ByteBuf
  append_segments [] result = ok result
  append_segments (segment ∷ segments) result = do
    result ← c.append result (platform.directory_separator ∷ [])
    result ← c.append result segment
    append_segments segments result

  -- the second loop; a separator behind all but the last segment stands before all but the first
  unfoldable pub build_path : List Bytes → ByteBuf → Option Bytes
  build_path [] result = some result.bytes
  build_path (first ∷ rest) result =
      elim (if is_home_segment first then platform.home_directory else some first) [
        | none ↦ none
        | some head ↦ elim (c.append result head >>= append_segments rest) [
          | err e ↦ none
          | ok result ↦ some result.bytes
        ]
      ]

  -- s_process_profile_file_path; `none` is NULL
  unfoldable pub process_profile_file_path : Bytes → Option Bytes
  process_profile_file_path path =
      let segments = c.split_on_char (local_path path) platform.directory_separator in
      elim (final_string_length segments) [
        | none ↦ none
        | some length_of_segments ↦
            let total =
              if ltb 1 (length segments)
              then length_of_segments + (length segments - 1)
              else length_of_segments in
            if total == 0 then none else build_path segments (buf_init total)
      ]

-- s_get_raw_file_path; `none` is an override without a pointer
unfoldable pub get_raw_file_path : Platform → Option Bytes → Bytes → Bytes → Bytes
get_raw_file_path platform (some override_path) override_env_var_name default_path = override_path
get_raw_file_path platform none override_env_var_name default_path =
    elim (platform.environment_value override_env_var_name) [
      | none ↦ default_path
      | some env_override_path ↦ env_override_path
    ]

-- aws_get_credentials_file_path
unfoldable pub get_credentials_file_path : Library → Platform → Option Bytes → Option Bytes
get_credentials_file_path c platform override_path = process_profile_file_path c platform (
    get_raw_file_path platform override_path (codes "AWS_SHARED_CREDENTIALS_FILE")
      (codes "~/.aws/credentials"))

-- aws_get_config_file_path
unfoldable pub get_config_file_path : Library → Platform → Option Bytes → Option Bytes
get_config_file_path c platform override_path =
    process_profile_file_path c platform
      (get_raw_file_path platform override_path (codes "AWS_CONFIG_FILE") (codes "~/.aws/config"))

-- aws_get_profile_name: the environment first, then the override
unfoldable pub get_profile_name : Platform → Option Bytes → Bytes
get_profile_name platform override_name = elim (platform.environment_value (codes "AWS_PROFILE")) [
  | some profile_name ↦ profile_name
  | none ↦ elim override_name [ some name ↦ name | none ↦ codes "default" ]
]

-- aws_profile_collection_new_from_file
unfoldable pub collection_new_from_file : Library → Platform → Bytes → Source → Option Collection
collection_new_from_file c platform file_path source = elim (platform.file_contents file_path) [
  | none ↦ none
  | some file_contents ↦ collection_new_from_buffer c file_contents source
]
