-- ===== src/Signing/Headers/Pairs.antt =====
-- s_append_canonical_header: what it writes into the header block and into the list of signed headers.
use aws_c_auth.Common.{
  ℕ, ◌+◌, ◌≤◌, Bool, true, false, not, [], ◌∷◌, ◌++◌, append_assoc, append-nil, Option, some, Bytes,
  length, bytes_eq_iff, leb, if◌then◌else◌, ◌≡◌, refl, sym, ap, subst, ◌∙◌, Result, ok, ◌>>=◌,
  Returns, returns, arith,
}
use aws_c_auth.External.{ByteBuf, Library, Documented, joined}
use aws_c_auth.Signing.State.{Header, append_character}
use aws_c_auth.Signing.Headers.{is_some, append_header_name, is_new_name, append_canonical_header}
use aws_c_auth.Signing.Buffers.{
  Writes, Fits, Writes-nothing, Fits-rest, Fits-first, append_character-text,
}
use aws_c_auth.Signing.Headers.Lines.{led, value_lines, append_header_lines-text}
use aws_c_auth.Signing.Headers.Groups.{lowered, same_name}

-- Both buffers come out with their texts behind what they had, and with no less room.
abbrev pub PairWrites : ByteBuf × ByteBuf → Result (ByteBuf × ByteBuf) → Bytes → Bytes → Type 0
PairWrites (b, s) m text names = Returns m (λ r.
    ((r.0.bytes ≡ b.bytes ++ text) × (b.capacity ≤ r.0.capacity))
    × ((r.1.bytes ≡ s.bytes ++ names) × (s.capacity ≤ r.1.capacity)))

pub PairWrites-bind :
    (b s : ByteBuf) (m : Result (ByteBuf × ByteBuf))
    (f : ByteBuf × ByteBuf → Result (ByteBuf × ByteBuf)) (t t' n n' : Bytes)
    → PairWrites (b, s) m t n
    → ((r q : ByteBuf)
        → r.bytes ≡ b.bytes ++ t
        → b.capacity ≤ r.capacity
        → q.bytes ≡ s.bytes ++ n
        → s.capacity ≤ q.capacity
        → PairWrites (r, q) (f (r, q)) t' n')
    → PairWrites (b, s) (m >>= f) (t ++ t') (n ++ n')
PairWrites-bind b s m f t t' n n' w k =
    let ((e, le), (e', le')) = w.holds in
    let next = k w.value.0 w.value.1 e le e' le' in
    let ((h, k), (h', k')) = next.holds in
    record {
      value = next.value;
      is_ok = rw w.is_ok next.is_ok;
      holds = (
        (h ∙ (ap (λ l. l ++ t') e ∙ append_assoc b.bytes t t'), omega (arith, le, k)),
        (h' ∙ (ap (λ l. l ++ n') e' ∙ append_assoc s.bytes n n'), omega (arith, le', k')),
      );
    }

-- A write to one of the two buffers.
first-only :
    (b s : ByteBuf) (m : Result ByteBuf) (t : Bytes)
    → Writes b m t
    → PairWrites (b, s) (m >>= (λ r. ok (r, s))) t []
first-only b s m t w = record {
  value = (w.value, s);
  is_ok = rw w.is_ok refl;
  holds = (w.holds, (sym (append-nil s.bytes), omega arith));
}

left-bind :
    (b s : ByteBuf) (m : Result ByteBuf) (f : ByteBuf → Result (ByteBuf × ByteBuf)) (t t' n : Bytes)
    → Writes b m t
    → ((r : ByteBuf)
        → r.bytes ≡ b.bytes ++ t
        → b.capacity ≤ r.capacity
        → PairWrites (r, s) (f r) t' n)
    → PairWrites (b, s) (m >>= f) (t ++ t') n
left-bind b s m f t t' n w k =
    let next = k w.value w.holds.0 w.holds.1 in
    let ((h, le), behind) = next.holds in
    record {
      value = next.value;
      is_ok = rw w.is_ok next.is_ok;
      holds = (
        (
          h ∙ (ap (λ l. l ++ t') w.holds.0 ∙ append_assoc b.bytes t t'),
          omega (arith, w.holds.1, le),
        ),
        behind,
      );
    }

right-bind :
    (b s : ByteBuf) (m : Result ByteBuf) (f : ByteBuf → Result (ByteBuf × ByteBuf)) (t n n' : Bytes)
    → Writes s m n
    → ((q : ByteBuf)
        → q.bytes ≡ s.bytes ++ n
        → s.capacity ≤ q.capacity
        → PairWrites (b, q) (f q) t n')
    → PairWrites (b, s) (m >>= f) t (n ++ n')
right-bind b s m f t n n' w k =
    let next = k w.value w.holds.0 w.holds.1 in
    let (behind, (h, le)) = next.holds in
    record {
      value = next.value;
      is_ok = rw w.is_ok next.is_ok;
      holds = (
        behind,
        (
          h ∙ (ap (λ l. l ++ n') w.holds.0 ∙ append_assoc s.bytes n n'),
          omega (arith, w.holds.1, le),
        ),
      );
    }

-- the separator in front of all names but the first
abbrev pub separator : Bool → ℕ → Bytes
separator true x = x ∷ []
separator false x = []

module _ (c : Library) (d : Documented c) where
  append_with_lookup-text :
      (b : ByteBuf) (name : Bytes)
      → Fits b (lowered c name)
      → Writes b (c.append_with_lookup b name c.to_lower) (lowered c name)
  append_with_lookup-text b name fits =
      let room : leb (length b.bytes + length (lowered c name)) b.capacity ≡ true =
        ground (arith, fits) in
      rw (d.append_with_lookup_eq b name c.to_lower, room) (returns _ _ (refl, omega arith))

  separator-text :
      (has : Bool) (b : ByteBuf) (x : ℕ)
      → Writes b (if has then append_character c b x else ok b) (separator has x)
  separator-text true b x = append_character-text c d b x
  separator-text false b x = Writes-nothing b

  append_header_name-text :
      (has : Bool) (name : Bytes) (b s : ByteBuf)
      → Fits b (separator has b'\n' ++ (lowered c name ++ b':' ∷ []))
      → Fits s (separator has b';' ++ lowered c name)
      → PairWrites
          (b, s)
          (append_header_name c has name (b, s))
          (separator has b'\n' ++ (lowered c name ++ b':' ∷ []))
          (separator has b';' ++ lowered c name)
  unfolding append_header_name
  append_header_name-text has name b s fits fits' =
      let low = lowered c name in
      subst
        (λ n.
          PairWrites (b, s) (append_header_name c has name (b, s))
            (separator has b'\n' ++ (low ++ b':' ∷ [])) (separator has b';' ++ n))
        (append-nil low)
        (left-bind b s _ _ _ _ _ (separator-text has b b'\n') (λ b1 e1 k1.
          let room = Fits-rest b b1 (separator has b'\n') (low ++ b':' ∷ []) fits e1 k1 in
          right-bind b1 s _ _ _ _ _ (separator-text has s b';') (λ s1 e2 k2.
            right-bind b1 s1 _ _ _ _ []
              (append_with_lookup-text s1 name
                (Fits-rest s s1 (separator has b';') low fits' e2 k2))
              (λ s2 e3 k3.
                left-bind b1 s2 _ _ _ _ _
                  (append_with_lookup-text b1 name (Fits-first b1 low (b':' ∷ []) room))
                  (λ b2 e4 k4.
                    first-only b2 s2 _ (b':' ∷ []) (append_character-text c d b2 b':'))))))

  pub is_new_name-same :
      (last name : Bytes) → is_new_name c (some last) name ≡ not (same_name c last name)
  unfolding is_new_name
  is_new_name-same last name = ground (
    arith,
    d.compare_lookup_eq last name c.to_lower,
    d.compare_lexical_same (lowered c last) (lowered c name),
    d.compare_lexical_refl (lowered c last),
    bytes_eq_iff (lowered c last) (lowered c name),
  )

  -- a header whose name is new
  pub new_header-text :
      (h : Header) (last : Option Bytes) (b s : ByteBuf)
      → is_new_name c last h.name ≡ true
      → (let sep = is_some last in
          let name = separator sep b'\n' ++ (lowered c h.name ++ b':' ∷ []) in
          let value = joined b',' (value_lines c h.value) in
          Fits b (name ++ value)
          → Fits s (separator sep b';' ++ lowered c h.name)
          → PairWrites
              (b, s)
              (append_canonical_header c h last (b, s))
              (name ++ value)
              (separator sep b';' ++ lowered c h.name))
  unfolding append_canonical_header
  new_header-text h last b s new fits fits' =
      let sep = is_some last in
      let name : Bytes = separator sep b'\n' ++ (lowered c h.name ++ b':' ∷ []) in
      let value = joined b',' (value_lines c h.value) in
      let signed : Bytes = separator sep b';' ++ lowered c h.name in
      subst (λ n. PairWrites (b, s) (append_canonical_header c h last (b, s)) (name ++ value) n)
        (append-nil signed)
        (rw new (
          PairWrites-bind b s _ _ name value signed []
            (append_header_name-text sep h.name b s (Fits-first b name value fits) fits')
            (λ r q e k e' k'. first-only r q _ value (
              append_header_lines-text c d (c.split_on_char h.value b'\n') false r
                (Fits-rest b r name value fits e k)))))

  -- a header with the name of the one in front of it
  pub same_header-text :
      (h : Header) (last : Option Bytes) (b s : ByteBuf)
      → is_new_name c last h.name ≡ false
      → Fits b (led b',' (value_lines c h.value))
      → PairWrites
          (b, s)
          (append_canonical_header c h last (b, s))
          (led b',' (value_lines c h.value))
          []
  unfolding append_canonical_header
  same_header-text h last b s old fits = rw old (
      first-only b s _ _ (append_header_lines-text c d (c.split_on_char h.value b'\n') true b fits))
