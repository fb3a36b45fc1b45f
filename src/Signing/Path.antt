-- ===== src/Signing/Path.antt =====
-- The canonical path: s_append_normalized_path and s_append_canonical_path of
-- source/aws_signing.c.
pub mod Normal
pub mod Canonical
use aws_c_auth.Common.{
  Bool, true, false, not, ◌&&◌, List, [], ◌∷◌, ◌++◌, Bytes, length, ◌==◌, if◌then◌else◌, Result, ok,
  ◌>>=◌,
}
use aws_c_auth.External.{ByteBuf, buf_init, Uri, Library}
use aws_c_auth.Signing.State.{State, append_character}

-- aws_array_list_push_back, aws_array_list_pop_back (which leaves an empty list as it is)
abbrev pub push_back {ℓ} : {A : Type ℓ} → List A → A → List A
push_back xs x = xs ++ x ∷ []

unfoldable pub pop_back {ℓ} : {A : Type ℓ} → List A → List A
pop_back [] = []
pop_back (x ∷ []) = []
pop_back (x ∷ y ∷ xs) = x ∷ pop_back (y ∷ xs)

-- `len == 0 || (len == 1 && *ptr == '.')`
unfoldable pub is_redundant : Bytes → Bool
is_redundant [] = true
is_redundant (x ∷ []) = x == b'.'
is_redundant (x ∷ y ∷ _) = false

-- `len == 2 && *ptr == '.' && *(ptr + 1) == '.'`
unfoldable pub is_parent : Bytes → Bool
is_parent (x ∷ y ∷ []) = x == b'.' && y == b'.'
is_parent _ = false

-- one round of the loop over the raw components
unfoldable pub normalize_step : List Bytes → Bytes → List Bytes
normalize_step normalized component =
    if is_redundant component
    then normalized
    else if is_parent component
    then pop_back normalized
    else push_back normalized component

unfoldable pub normalize_components : List Bytes → List Bytes → List Bytes
normalize_components normalized [] = normalized
normalize_components normalized (component ∷ raw) =
    normalize_components (normalize_step normalized component) raw

-- `raw_path->len > 0 && raw_path->ptr[raw_path->len - 1] == '/'`
unfoldable pub ends_with_slash : Bytes → Bool
ends_with_slash [] = false
ends_with_slash (x ∷ []) = x == b'/'
ends_with_slash (x ∷ y ∷ s) = ends_with_slash (y ∷ s)

abbrev is_nil {ℓ} : {A : Type ℓ} → List A → Bool
is_nil [] = true
is_nil (_ ∷ _) = false

module _ (c : Library) where
  -- the loop that joins the components
  unfoldable pub append_components : Bool → List Bytes → ByteBuf → Result ByteBuf
  append_components slash [] dest = ok dest
  append_components slash (component ∷ rest) dest = do
    dest ← c.append_dynamic dest component
    dest ← if is_nil rest && not slash then ok dest else append_character c dest b'/'
    append_components slash rest dest

  -- s_append_normalized_path
  unfoldable pub append_normalized_path : Bytes → ByteBuf → Result ByteBuf
  append_normalized_path raw_path dest = do
    let normalized = normalize_components [] (c.split_on_char raw_path b'/')
    dest ← append_character c dest b'/'
    append_components (ends_with_slash raw_path) normalized dest

  -- s_append_canonical_path
  unfoldable pub append_canonical_path : Uri → State → Result State
  append_canonical_path uri state = do
    buffer ←
        if state.config.use_double_uri_encode
        then (do
          path ←
              if state.config.should_normalize_uri_path
              then (do
                normalized_path ← append_normalized_path uri.path (buf_init (length uri.path))
                ok normalized_path.bytes)
              else ok uri.path
          c.append_encoding_uri_path state.canonical_request path)
        else if state.config.should_normalize_uri_path
        then append_normalized_path uri.path state.canonical_request
        else c.append_dynamic state.canonical_request uri.path
    buffer ← append_character c buffer b'\n'
    ok (record state { canonical_request = buffer })
