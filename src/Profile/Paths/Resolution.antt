-- ===== src/Profile/Paths/Resolution.antt =====
-- What the path of a profile file comes out as.
use aws_c_auth.Common.{
  ◌+◌, ◌-◌, List, [], ◌∷◌, ◌++◌, Option, none, some, Bytes, length, ltb, ◌==◌, if◌then◌else◌,
}
use aws_c_auth.External.{buf_init, Library, Documented}
use aws_c_auth.Profile.Paths.{Platform, is_home_segment, final_string_length, build_path}

abbrev pub or_none : Bytes → Option Bytes
or_none [] = none
or_none (x ∷ s) = some (x ∷ s)

module _ (c : Library) (d : Documented c) (platform : Platform) where
  -- The segments with the home directory in place of a first segment "~"; `none` where it is not
  -- there.
  abbrev pub with_home : List Bytes → Option (List Bytes)
  with_home [] = some []
  with_home (first ∷ rest) =
      if is_home_segment first
      then elim platform.home_directory [ none ↦ none | some home ↦ some (home ∷ rest) ]
      else some (first ∷ rest)

  -- the separators and segments behind the first
  abbrev behind : List Bytes → Bytes
  behind [] = []
  behind (s ∷ ss) = platform.directory_separator ∷ (s ++ behind ss)

  -- The end of the resolution, for a list of segments.
  abbrev resolved : List Bytes → Option Bytes
  resolved segments = elim (final_string_length c platform segments) [
    | none ↦ none
    | some n ↦
        let total = if ltb 1 (length segments) then n + (length segments - 1) else n in
        if total == 0 then none else build_path c platform segments (buf_init total)
  ]
