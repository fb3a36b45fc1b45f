-- ===== src/Signing/Headers/Squash.antt =====
-- The raw write loop of s_append_canonical_header: it squashes runs of spaces.
use aws_c_auth.Common.{
  ℕ, ◌≤◌, Bool, true, false, not, ◌&&◌, ◌||◌, [], ◌∷◌, ◌++◌, Bytes, length, length-append, ltb,
  ◌==◌, if◌then◌else◌, ◌≡◌, refl, sym, ap, ◌∙◌, ok, returns, arith, Bool-cases, inl, inr,
}
use aws_c_auth.External.{ByteBuf}
use aws_c_auth.Signing.Buffers.{
  Writes, Fits, Writes-nothing, Writes-bind, Fits-rest, Fits-first, retext,
}
use aws_c_auth.Signing.Headers.{raw_write, write_squashed}

-- A space in front of another space goes.
abbrev pub squashed : Bytes → Bytes
squashed [] = []
squashed (x ∷ []) = x ∷ []
squashed (x ∷ y ∷ s) =
    let rest = squashed (y ∷ s) in if (x == b' ') && (y == b' ') then rest else x ∷ rest

-- what a round of the loop writes, and the loop
round : Bool → Bool → ℕ → Bytes
round true true x = []
round true false x = x ∷ []
round false in_space x = x ∷ []

kept : Bool → Bytes → Bytes
kept in_space [] = []
kept in_space (x ∷ s) = round (x == b' ') in_space x ++ kept (x == b' ') s

squashed-other : (x : ℕ) (s : Bytes) → (x == b' ') ≡ false → squashed (x ∷ s) ≡ x ∷ squashed s
squashed-other x [] e = refl
squashed-other x (y ∷ s) e = rw e refl

squashed-kept :
    (s : Bytes) → (squashed s ≡ kept false s) × (squashed (b' ' ∷ s) ≡ b' ' ∷ kept true s)
unfolding kept round
squashed-kept [] = (refl, refl)
squashed-kept (x ∷ s) =
    let (plain, spaced) = squashed-kept s in
    elim (Bool-cases (x == b' ')) [
      | inl e ↦
          let is_space : x ≡ b' ' = ground (arith, e) in
          (
            ap (λ y. squashed (y ∷ s)) is_space ∙ (spaced ∙ rw (is_space) refl),
            rw e (ap (λ y. squashed (y ∷ s)) is_space ∙ spaced),
          )
      | inr e ↦
          let other = squashed-other x s e in (rw (e, other, plain) refl, rw (e, other, plain) refl)
    ]

length-round : (space in_space : Bool) (x : ℕ) → length (round space in_space x) ≤ 1
unfolding round
length-round true true x = omega arith
length-round true false x = omega arith
length-round false in_space x = omega arith

length-kept : (in_space : Bool) (s : Bytes) → length (kept in_space s) ≤ length s
unfolding kept
length-kept in_space [] = omega arith
length-kept in_space (x ∷ s) = omega (
  arith,
  length-kept (x == b' ') s,
  length-round (x == b' ') in_space x,
  length-append (round (x == b' ') in_space x) (kept (x == b' ') s),
)

pub length-squashed : (s : Bytes) → length (squashed s) ≤ length s
length-squashed s = rw (squashed-kept s).0 (length-kept false s)

raw_write-text : (b : ByteBuf) (x : ℕ) → Fits b (x ∷ []) → Writes b (raw_write b x) (x ∷ [])
unfolding raw_write
raw_write-text b x fits =
    let room : ltb (length b.bytes) b.capacity ≡ true = ground (arith, fits) in
    rw room (returns _ _ (refl, omega arith))

round-text :
    (space in_space : Bool) (x : ℕ) (b : ByteBuf)
    → Fits b (round space in_space x)
    → Writes b (if not space || not in_space then raw_write b x else ok b) (round space in_space x)
unfolding round
round-text true true x b fits = Writes-nothing b
round-text true false x b fits = raw_write-text b x fits
round-text false in_space x b fits = raw_write-text b x fits

write_squashed-kept :
    (s : Bytes) (in_space : Bool) (b : ByteBuf)
    → Fits b (kept in_space s)
    → Writes b (write_squashed in_space s b) (kept in_space s)
unfolding write_squashed kept
write_squashed-kept [] in_space b fits = Writes-nothing b
write_squashed-kept (x ∷ s) in_space b fits =
    let space = x == b' ' in
    let now = round space in_space x in
    Writes-bind b _ _ now (kept space s)
      (round-text space in_space x b (Fits-first b now (kept space s) fits))
      (λ r e le. write_squashed-kept s space r (Fits-rest b r now (kept space s) fits e le))

pub write_squashed-text :
    (s : Bytes) (b : ByteBuf)
    → Fits b (squashed s)
    → Writes b (write_squashed false s b) (squashed s)
write_squashed-text s b = retext b _ (sym (squashed-kept s).0) (write_squashed-kept s false b)
