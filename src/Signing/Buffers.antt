-- ===== src/Signing/Buffers.antt =====
-- Appending to buffers, by the documented behaviour of the library.
use aws_c_auth.Common.{
  ℕ, ◌+◌, ◌<◌, ◌≤◌, [], ◌∷◌, ◌++◌, append_assoc, append-nil, Bytes, length, length-append, ◌≡◌,
  refl, sym, ap, subst, ◌∙◌, Result, ok, ◌>>=◌, >>=-assoc, Returns, returns, arith,
}
use aws_c_auth.External.{ByteBuf, Library, Documented, grown_to}
use aws_c_auth.Signing.State.{State, append_character}

pub append_character_lem :
    (c : Library) (d : Documented c) (b : ByteBuf) (v : ℕ)
    → append_character c b v ≡ ok (grown_to b (v ∷ []) (d.grown b (v ∷ [])))
unfolding append_character
append_character_lem c d b v = d.append_dynamic_eq b (v ∷ [])

-- A buffer comes out that has the text behind what it had, and no less room.
abbrev pub Writes : ByteBuf → Result ByteBuf → Bytes → Type 0
Writes b m text = Returns m (λ r. (r.bytes ≡ b.bytes ++ text) × (b.capacity ≤ r.capacity))

-- The text fits into the buffer.
abbrev pub Fits : ByteBuf → Bytes → Type 0
Fits b text = length b.bytes + length text ≤ b.capacity

pub Writes-nothing : (b : ByteBuf) → Writes b (ok b) []
Writes-nothing b = returns _ b (sym (append-nil b.bytes), omega arith)

pub Writes-bind :
    (b : ByteBuf) (m : Result ByteBuf) (f : ByteBuf → Result ByteBuf) (text rest : Bytes)
    → Writes b m text
    → ((r : ByteBuf) → r.bytes ≡ b.bytes ++ text → b.capacity ≤ r.capacity → Writes r (f r) rest)
    → Writes b (m >>= f) (text ++ rest)
Writes-bind b m f text rest w k =
    let next = k w.value w.holds.0 w.holds.1 in
    record {
      value = next.value;
      is_ok = rw w.is_ok next.is_ok;
      holds = (
        next.holds.0 ∙ (ap (λ l. l ++ rest) w.holds.0 ∙ append_assoc b.bytes text rest),
        omega (arith, w.holds.1, next.holds.1),
      );
    }

-- The same with a zero byte behind it.
abbrev pub FitsWithEnd : ByteBuf → Bytes → Type 0
FitsWithEnd b text = length b.bytes + length text < b.capacity

pub Fits-rest :
    (b r : ByteBuf) (text rest : Bytes)
    → Fits b (text ++ rest)
    → r.bytes ≡ b.bytes ++ text
    → b.capacity ≤ r.capacity
    → Fits r rest
Fits-rest b r text rest fits e le =
    omega (arith, length-append text rest, length-append b.bytes text, ap length e)

pub retext :
    (b : ByteBuf) (m : Result ByteBuf) {text text' : Bytes}
    → text ≡ text'
    → (Fits b text → Writes b m text)
    → Fits b text'
    → Writes b m text'
retext b m e h = subst (λ t. Fits b t → Writes b m t) e h

pub Fits-first : (b : ByteBuf) (text rest : Bytes) → Fits b (text ++ rest) → Fits b text
Fits-first b text rest fits = omega (arith, length-append text rest)

module _ (c : Library) (d : Documented c) where
  pub append_character-text : (b : ByteBuf) (x : ℕ) → Writes b (append_character c b x) (x ∷ [])
  append_character-text b x =
      rw (append_character_lem c d b x) (returns _ _ (refl, d.grown_keeps b (x ∷ [])))

  pub append_dynamic-text : (b : ByteBuf) (s : Bytes) → Writes b (c.append_dynamic b s) s
  append_dynamic-text b s = rw (d.append_dynamic_eq b s) (returns _ _ (refl, d.grown_keeps b s))

-- The state with the text behind what its canonical request had, in no less room.
abbrev pub Extended : State → Bytes → State → Type 0
Extended s text r =
    (r ≡ record s { canonical_request = r.canonical_request })
    × (r.canonical_request.bytes ≡ s.canonical_request.bytes ++ text)
    × (s.canonical_request.capacity ≤ r.canonical_request.capacity)

pub Writes-Extended :
    (s : State) (m : Result ByteBuf) (text : Bytes)
    → Writes s.canonical_request m text
    → Returns (m >>= (λ b. ok (record s { canonical_request = b }))) (Extended s text)
Writes-Extended s m text w = rw w.is_ok (returns _ _ (refl, w.holds.0, w.holds.1))

pub line-Extended :
    (c : Library) (d : Documented c) (s : State) (m : Result ByteBuf) (text : Bytes)
    → Writes s.canonical_request m text
    → Returns
        (m >>= (λ b.
          append_character c b b'\n' >>= (λ b'. ok (record s { canonical_request = b' }))))
        (Extended s (text ++ b'\n' ∷ []))
line-Extended c d s m text w =
    let line =
      Writes-bind s.canonical_request m (λ b. append_character c b b'\n') text (b'\n' ∷ []) w
        (λ r _ _. append_character-text c d r b'\n') in
    let whole = Writes-Extended s _ (text ++ b'\n' ∷ []) line in
    record { value = whole.value; is_ok = sym (>>=-assoc m _ _) ∙ whole.is_ok; holds = whole.holds }
