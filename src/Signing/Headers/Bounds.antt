-- ===== src/Signing/Headers/Bounds.antt =====
-- The unchecked writes of s_append_canonical_header: how many bytes each part of the header block
-- takes, and that the reserved capacity holds them.
use aws_c_auth.Common.{
  ℕ, suc, ◌+◌, ◌-◌, ◌≤◌, Bool, true, false, List, [], ◌∷◌, Bytes, length, length-append, ◌==◌,
  if◌then◌else◌, ◌≢◌, Result, ok, err, out_of_bounds_write, ◌>>=◌, arith,
}
use aws_c_auth.External.{ByteBuf, Library, Documented}
use aws_c_auth.Signing.Buffers.{append_character_lem}
use aws_c_auth.Signing.State.{append_character}
use aws_c_auth.Signing.Headers.{is_space, raw_write, write_squashed, append_header_lines}

-- The outcome is not an out of bounds write, and a buffer that comes out has at least the
-- capacity and at most the bytes named.
abbrev pub Stays : ℕ → ℕ → Result ByteBuf → Type 0
Stays cap used (ok b) = (cap ≤ b.capacity) × (length b.bytes ≤ used)
Stays cap used (err e) = e ≢ out_of_bounds_write

abbrev pub PairStays : ℕ → ℕ → Result (ByteBuf × ByteBuf) → Type 0
PairStays cap used (ok (b, _)) = (cap ≤ b.capacity) × (length b.bytes ≤ used)
PairStays cap used (err e) = e ≢ out_of_bounds_write

pub Stays-bind :
    (cap used used' : ℕ) (m : Result ByteBuf) (f : ByteBuf → Result ByteBuf)
    → Stays cap used m
    → ((b : ByteBuf) → cap ≤ b.capacity → length b.bytes ≤ used → Stays cap used' (f b))
    → Stays cap used' (m >>= f)
Stays-bind cap used used' (ok b) f h k = k b h.0 h.1
Stays-bind cap used used' (err e) f h k = h

pub Stays-bind-pair :
    (cap used used' : ℕ) (m : Result ByteBuf) (f : ByteBuf → Result (ByteBuf × ByteBuf))
    → Stays cap used m
    → ((b : ByteBuf) → cap ≤ b.capacity → length b.bytes ≤ used → PairStays cap used' (f b))
    → PairStays cap used' (m >>= f)
Stays-bind-pair cap used used' (ok b) f h k = k b h.0 h.1
Stays-bind-pair cap used used' (err e) f h k = h

pub PairStays-bind :
    (cap used used' : ℕ) (m : Result (ByteBuf × ByteBuf))
    (f : ByteBuf × ByteBuf → Result (ByteBuf × ByteBuf))
    → PairStays cap used m
    → ((p : ByteBuf × ByteBuf)
        → cap ≤ p.0.capacity
        → length p.0.bytes ≤ used
        → PairStays cap used' (f p))
    → PairStays cap used' (m >>= f)
PairStays-bind cap used used' (ok p) f h k = k p h.0 h.1
PairStays-bind cap used used' (err e) f h k = h

pub Stays-mono :
    (cap used used' : ℕ) (m : Result ByteBuf) → used ≤ used' → Stays cap used m → Stays cap used' m
Stays-mono cap used used' (ok b) le h = (h.0, omega arith)
Stays-mono cap used used' (err e) le h = h

pub Stays-if :
    (cap used : ℕ) (t : Bool) (m n : Result ByteBuf)
    → Stays cap used m
    → Stays cap used n
    → Stays cap used (if t then m else n)
Stays-if cap used true m n hm hn = hm
Stays-if cap used false m n hm hn = hn

raw_write-Stays :
    (cap used : ℕ) (b : ByteBuf) (v : ℕ)
    → suc used ≤ cap
    → cap ≤ b.capacity
    → length b.bytes ≤ used
    → Stays cap (suc used) (raw_write b v)
unfolding raw_write
raw_write-Stays cap used b v f k l = ground (arith, length-append b.bytes (v ∷ []))

pub write_squashed-Stays :
    (s : Bytes) (in_space : Bool) (cap used : ℕ) (b : ByteBuf)
    → used + length s ≤ cap
    → cap ≤ b.capacity
    → length b.bytes ≤ used
    → Stays cap (used + length s) (write_squashed in_space s b)
unfolding write_squashed
write_squashed-Stays [] i cap used b f k l = omega arith
write_squashed-Stays (v ∷ s) i cap used b f k l =
    Stays-bind _ _ _ _ _
      (Stays-if _ _ _ (raw_write b v) (ok b) (raw_write-Stays cap used b v (omega arith) k l)
        (k, omega arith))
      (λ b' k' l'.
        Stays-mono _ _ _ (write_squashed (v == b' ') s b') (omega arith)
          (write_squashed-Stays s (v == b' ') cap (suc used) b' (omega arith) k' l'))

-- The bytes of some lines with one more for each.
abbrev pub lines_cost : List Bytes → ℕ
lines_cost [] = 0
lines_cost (line ∷ lines) = suc (length line + lines_cost lines)

abbrev pub room : Bool → List Bytes → ℕ
room true lines = lines_cost lines
room false lines = lines_cost lines - 1

module _ (c : Library) (d : Documented c) where
  pub append_character-Stays :
      (cap used : ℕ) (b : ByteBuf) (v : ℕ)
      → cap ≤ b.capacity
      → length b.bytes ≤ used
      → Stays cap (suc used) (append_character c b v)
  append_character-Stays cap used b v k l =
      rw (append_character_lem c d)
        (omega (arith, d.grown_keeps b (v ∷ []), length-append b.bytes (v ∷ [])))

  comma_size : Bool → ℕ
  comma_size true = 1
  comma_size false = 0

  room-tail :
      (comma : Bool) (line : Bytes) (lines : List Bytes)
      → room comma lines ≤ room comma (line ∷ lines)
  room-tail true line lines = omega arith
  room-tail false line lines = omega arith

  room-write :
      (comma : Bool) (line : Bytes) (lines : List Bytes)
      → comma_size comma + (length line + lines_cost lines) ≤ room comma (line ∷ lines)
  unfolding comma_size
  room-write true line lines = omega arith
  room-write false line lines = omega arith

  comma-Stays :
      (comma : Bool) (cap used : ℕ) (b : ByteBuf)
      → cap ≤ b.capacity
      → length b.bytes ≤ used
      → Stays cap (used + comma_size comma) (if comma then append_character c b b',' else ok b)
  unfolding comma_size
  comma-Stays true cap used b k l =
      Stays-mono _ _ _ (append_character c b b',') (omega arith)
        (append_character-Stays cap used b b',' k l)
  comma-Stays false cap used b k l = (k, omega arith)

  pub lines-Stays :
      (lines : List Bytes) (comma : Bool) (cap used w : ℕ) (b : ByteBuf)
      → room comma lines ≤ w
      → used + w ≤ cap
      → cap ≤ b.capacity
      → length b.bytes ≤ used
      → Stays cap (used + w) (append_header_lines c comma lines b)
  unfolding append_header_lines
  lines-Stays [] comma cap used w b r f k l = (k, omega arith)
  lines-Stays (line ∷ lines) comma cap used w b r f k l =
      Stays-if _ _ _ _ _
        (lines-Stays lines comma cap used w b (omega (arith, room-tail comma line lines)) f k l)
        (Stays-bind _ _ _ _ _ (comma-Stays comma cap used b k l) (λ b' k' l'.
          Stays-bind _ _ _ _ _
            (write_squashed-Stays trimmed false cap (used + comma_size comma) b'
              (omega (arith, d.trim_length line is_space, room-write comma line lines)) k' l')
            (λ b'' k'' l''.
              Stays-mono cap (used + comma_size comma + length trimmed + lines_cost lines) _
                (append_header_lines c true lines b'')
                (omega (arith, d.trim_length line is_space, room-write comma line lines))
                (lines-Stays lines true cap (used + comma_size comma + length trimmed)
                  (lines_cost lines) b'' (omega arith)
                  (omega (arith, d.trim_length line is_space, room-write comma line lines)) k''
                  l''))))
    where
      trimmed : Bytes
      trimmed = c.trim_pred line is_space
