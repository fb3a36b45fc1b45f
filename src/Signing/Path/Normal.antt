-- ===== src/Signing/Path/Normal.antt =====
-- Path normalization, s_append_normalized_path.
use aws_c_auth.Common.{
  Bool, true, false, not, ◌&&◌, ◌||◌, List, [], ◌∷◌, ◌++◌, append_assoc, append-nil, Bytes,
  bytes_eq, all, if◌then◌else◌, ◌≡◌, refl, sym, ap, ◌∙◌, Returns, Returns-map, arith,
}
use aws_c_auth.External.{ByteBuf, Library, Documented}
use aws_c_auth.Signing.Buffers.{
  Writes, Writes-nothing, Writes-bind, append_character-text, append_dynamic-text,
}
use aws_c_auth.Signing.Path.{
  is_redundant, is_parent, pop_back, normalize_step, normalize_components, ends_with_slash,
  append_components, append_normalized_path,
}

-- A component that a normalized path may have: not empty, not ".", not "..".
abbrev pub is_normal : Bytes → Bool
is_normal s = not (bytes_eq s [] || (bytes_eq s (b'.' ∷ []) || bytes_eq s (b'.' ∷ b'.' ∷ [])))

-- the same by the tests of the loop
abbrev is_pushed : Bytes → Bool
is_pushed s = not (is_redundant s) && not (is_parent s)

normal_lem : (s : Bytes) → is_normal s ≡ is_pushed s
unfolding bytes_eq is_redundant is_parent
normal_lem [] = refl
normal_lem (x ∷ []) = ground arith
normal_lem (x ∷ y ∷ []) = ground arith
normal_lem (x ∷ y ∷ z ∷ s) = ground arith

all-normal : (xs : List Bytes) → all is_normal xs ≡ all is_pushed xs
unfolding all
all-normal [] = refl
all-normal (x ∷ xs) = rw (normal_lem x, all-normal xs) refl

pop_back-pushed : (xs : List Bytes) → all is_pushed xs ≡ true → all is_pushed (pop_back xs) ≡ true
unfolding all pop_back
pop_back-pushed [] h = refl
pop_back-pushed (x ∷ []) h = refl
pop_back-pushed (x ∷ y ∷ xs) h = ground (arith, pop_back-pushed (y ∷ xs))

push_back-pushed :
    (xs : List Bytes) (x : Bytes)
    → all is_pushed xs ≡ true
    → is_pushed x ≡ true
    → all is_pushed (xs ++ x ∷ []) ≡ true
unfolding all
push_back-pushed [] x h e = ground arith
push_back-pushed (y ∷ xs) x h e = ground (arith, push_back-pushed xs x)

step-pushed :
    (xs : List Bytes) (x : Bytes)
    → all is_pushed xs ≡ true
    → all is_pushed (normalize_step xs x) ≡ true
unfolding normalize_step
step-pushed xs x h = ground (arith, pop_back-pushed xs h, push_back-pushed xs x h)

normalize-pushed :
    (raw xs : List Bytes)
    → all is_pushed xs ≡ true
    → all is_pushed (normalize_components xs raw) ≡ true
unfolding normalize_components
normalize-pushed [] xs h = h
normalize-pushed (x ∷ raw) xs h = normalize-pushed raw (normalize_step xs x) (step-pushed xs x h)

normalize-fixed :
    (raw xs : List Bytes) → all is_pushed raw ≡ true → normalize_components xs raw ≡ xs ++ raw
unfolding normalize_components normalize_step all
normalize-fixed [] xs h = sym (append-nil xs)
normalize-fixed (x ∷ raw) xs h =
    ground (arith, append_assoc xs (x ∷ []) raw, normalize-fixed raw (xs ++ x ∷ []))

normalize-append :
    (front back xs : List Bytes)
    → normalize_components xs (front ++ back)
      ≡ normalize_components (normalize_components xs front) back
unfolding normalize_components
normalize-append [] back xs = refl
normalize-append (x ∷ front) back xs = normalize-append front back (normalize_step xs x)

pop_back-push_back : (xs : List Bytes) (x : Bytes) → pop_back (xs ++ x ∷ []) ≡ xs
unfolding pop_back
pop_back-push_back [] x = refl
pop_back-push_back (y ∷ []) x = refl
pop_back-push_back (y ∷ z ∷ xs) x = ap (λ l. y ∷ l) (pop_back-push_back (z ∷ xs) x)

-- a component with ".." behind it goes
parent-step :
    (xs back : List Bytes) (x : Bytes)
    → is_pushed x ≡ true
    → normalize_components xs (x ∷ (b'.' ∷ b'.' ∷ []) ∷ back) ≡ normalize_components xs back
unfolding normalize_components normalize_step is_redundant is_parent
parent-step xs back x e = ground (arith, e, pop_back-push_back xs x)

-- Normalizing the components of a path leaves none that is empty, "." or "..", and changes nothing
-- in a path that has none. An empty component and a "." may be left out before, wherever they stand; so
-- may any other component with a ".." behind it; and so may a ".." at the beginning.
pub normalize_components-normal :
    (front back kept : List Bytes) (x : Bytes)
    → is_normal x ≡ true
    → all is_normal kept ≡ true
    → (all is_normal (normalize_components [] front) ≡ true)
      × (normalize_components [] kept ≡ kept)
      × (normalize_components [] (front ++ [] ∷ back) ≡ normalize_components [] (front ++ back))
      × (normalize_components [] (front ++ (b'.' ∷ []) ∷ back)
          ≡ normalize_components [] (front ++ back))
      × (normalize_components [] (front ++ x ∷ (b'.' ∷ b'.' ∷ []) ∷ back)
          ≡ normalize_components [] (front ++ back))
      × (normalize_components [] ((b'.' ∷ b'.' ∷ []) ∷ back) ≡ normalize_components [] back)
unfolding normalize_components normalize_step is_redundant is_parent pop_back
normalize_components-normal front back kept x e h =
    let xs = normalize_components [] front in
    let behind : (l : List Bytes)
        → normalize_components [] (front ++ l) ≡ normalize_components xs l =
      λ l. normalize-append front l [] in
    let other : normalize_components xs back ≡ normalize_components [] (front ++ back) =
      sym (behind back) in
    (
      all-normal xs ∙ normalize-pushed front [] (unfold all in refl),
      normalize-fixed kept [] (sym (all-normal kept) ∙ h),
      behind ([] ∷ back) ∙ other,
      behind ((b'.' ∷ []) ∷ back) ∙ other,
      behind (x ∷ (b'.' ∷ b'.' ∷ []) ∷ back)
          ∙ (parent-step xs back x (sym (normal_lem x) ∙ e) ∙ other),
      refl,
    )

-- The text of a normalized path: a slash, the components with slashes between them, and a slash
-- behind the last if the raw path has one there.
abbrev pub path_text : Bool → List Bytes → Bytes
path_text slash [] = []
path_text slash (x ∷ []) = x ++ (if slash then b'/' ∷ [] else [])
path_text slash (x ∷ y ∷ xs) = x ++ (b'/' ∷ path_text slash (y ∷ xs))

module _ (c : Library) (d : Documented c) where
  components-text :
      (slash : Bool) (xs : List Bytes) (dest : ByteBuf)
      → Writes dest (append_components c slash xs dest) (path_text slash xs)
  unfolding append_components
  components-text slash [] dest = Writes-nothing dest
  components-text true (x ∷ []) dest =
      Writes-bind dest _ _ x _ (append_dynamic-text c d dest x) (λ r _ _.
        Writes-bind r _ _ (b'/' ∷ []) [] (append_character-text c d r b'/')
          (λ r' _ _. Writes-nothing r'))
  components-text false (x ∷ []) dest =
      Writes-bind dest _ _ x _ (append_dynamic-text c d dest x) (λ r _ _. Writes-nothing r)
  components-text slash (x ∷ y ∷ xs) dest =
      Writes-bind dest _ _ x _ (append_dynamic-text c d dest x) (λ r _ _.
        Writes-bind r _ _ (b'/' ∷ []) _ (append_character-text c d r b'/')
          (λ r' _ _. components-text slash (y ∷ xs) r'))

  -- the text of a path that is normalized
  abbrev pub normalized_text : Bytes → Bytes
  normalized_text raw_path =
      b'/'
      ∷ path_text (ends_with_slash raw_path)
          (normalize_components [] (c.split_on_char raw_path b'/'))

  pub append_normalized_path-Writes :
      (raw_path : Bytes) (dest : ByteBuf)
      → Writes dest (append_normalized_path c raw_path dest) (normalized_text raw_path)
  unfolding append_normalized_path
  append_normalized_path-Writes raw_path dest =
      Writes-bind dest _ _ (b'/' ∷ []) _ (append_character-text c d dest b'/')
        (λ r _ _. components-text (ends_with_slash raw_path) _ r)

  pub append_normalized_path-text :
      (raw_path : Bytes) (dest : ByteBuf)
      → Returns (append_normalized_path c raw_path dest) (λ r.
        r.bytes
        ≡ dest.bytes
          ++ (b'/'
              ∷ path_text
                  (ends_with_slash raw_path)
                  (normalize_components [] (c.split_on_char raw_path b'/'))))
  append_normalized_path-text raw_path dest =
      Returns-map _ _ (append_normalized_path-Writes raw_path dest) (λ r h. h.0)
