-- ===== src/Profile/Chars/Consume.antt =====
-- The consume helper, s_parse_by_character_predicate.
use aws_c_auth.Common.{
  ℕ, Bool, true, false, not, [], ◌∷◌, ◌++◌, append-nil, Bytes, all, ltb, ◌&&◌, ◌≡◌, refl, arith,
}
use aws_c_auth.Profile.Chars.{span, parse_by_character_predicate}

-- The text does not start with a byte that the predicate takes.
abbrev pub stops : (ℕ → Bool) → Bytes → Bool
stops p [] = true
stops p (x ∷ s) = not (p x)

span-parts :
    (p : ℕ → Bool) (s : Bytes)
    → ((span p s).0 ++ (span p s).1 ≡ s)
      × (all p (span p s).0 ≡ true)
      × (stops p (span p s).1 ≡ true)
unfolding span all
span-parts p [] = (refl, refl, refl)
span-parts p (x ∷ s) = ground (arith, span-parts p s)

unlimited : (n : ℕ) → (ltb 0 n && ltb n 0) ≡ false
unlimited n = ground arith

unlimited-span : (s : Bytes) (p : ℕ → Bool) (n : ℕ) → parse_by_character_predicate s p n ≡ span p s
unfolding parse_by_character_predicate
unlimited-span s p n = simp (unlimited n, append-nil)

-- Consuming by a predicate splits the cursor into what it takes and the rest, of which all of the
-- first satisfies the predicate and the rest does not start with a byte that does. This holds for
-- every maximum that the caller allows: the maximum has no effect.
pub parse_by_character_predicate-maximal :
    (s : Bytes) (p : ℕ → Bool) (maximum_allowed : ℕ)
    → (let (consumed, rest) = parse_by_character_predicate s p maximum_allowed in
        (consumed ++ rest ≡ s) × (all p consumed ≡ true) × (stops p rest ≡ true))
parse_by_character_predicate-maximal s p n = rw (unlimited-span s p n) (span-parts p s)
