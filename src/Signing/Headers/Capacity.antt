-- ===== src/Signing/Headers/Capacity.antt =====
-- The reserved capacity of the header block holds all that is written through raw pointers.
use Prim.Native.Nat.{max}
use mathlib.Core.List.{map}
use aws_c_auth.Common.{
  ℕ, suc, ◌+◌, ◌*◌, ◌≤◌, Bool, true, false, List, [], ◌∷◌, Option, none, some, Bytes, length,
  length-append, length-map, if◌then◌else◌, ◌≡◌, ◌≢◌, refl, sym, ap, ◌∙◌, Result, ok, err, Error,
  out_of_bounds_write, ◌>>=◌, arith, Bool-cases, inl, inr,
}
use aws_c_auth.Common.Sort.{qsort}
use aws_c_auth.External.{ByteBuf, Library, Documented, append_fixed, joined}
use aws_c_auth.Signing.Buffers.{append_character_lem}
use aws_c_auth.Signing.State.{State, Header, append_character, http_headers_list}
use aws_c_auth.Signing.Headers.{
  StableHeader, is_some, append_header_name, is_new_name, append_canonical_header,
  append_canonical_headers, collect_headers, build_canonical_stable_header_list,
  canonical_header_comparator, build_canonical_headers, validate_signable_header_list,
}
use aws_c_auth.Signing.Headers.Reserve.{
  header_cost, total_cost, total_cost-qsort, total_cost-weight, weight-collect,
}
use aws_c_auth.Signing.Headers.Bounds.{
  Stays, PairStays, Stays-bind-pair, PairStays-bind, lines_cost, lines-Stays,
  append_character-Stays,
}

ne-bind {ℓ κ} :
    {A : Type ℓ} {B : Type κ} {e : Error} (m : Result A) (f : A → Result B)
    → m ≢ err e
    → ((a : A) → m ≡ ok a → f a ≢ err e)
    → (m >>= f) ≢ err e
ne-bind (ok a) f h k = k a refl
ne-bind (err e') f h k = λ p. h (cc p)

-- A step that fails with no out of bounds write, before a part that stays.
any-bind-pair :
    (cap used : ℕ) (m : Result ByteBuf) (f : ByteBuf → Result (ByteBuf × ByteBuf))
    → m ≢ err out_of_bounds_write
    → ((b : ByteBuf) → PairStays cap used (f b))
    → PairStays cap used (m >>= f)
any-bind-pair cap used (ok b) f h k = k b
any-bind-pair cap used (err e) f h k = λ p. h (ap err p)

PairStays-mono :
    (cap used used' : ℕ) (m : Result (ByteBuf × ByteBuf))
    → used ≤ used'
    → PairStays cap used m
    → PairStays cap used' m
PairStays-mono cap used used' (ok p) le h = (h.0, omega arith)
PairStays-mono cap used used' (err e) le h = h

append_fixed-Stays :
    (cap used : ℕ) (b : ByteBuf) (s : Bytes)
    → cap ≤ b.capacity
    → length b.bytes ≤ used
    → Stays cap (used + length s) (append_fixed b s)
append_fixed-Stays cap used b s k l = ground (arith, length-append b.bytes s)

append_fixed-ne : (b : ByteBuf) (s : Bytes) → append_fixed b s ≢ err out_of_bounds_write
append_fixed-ne b s = ground arith

joined-length :
    (sep : ℕ) (lines : List Bytes) → lines ≢ [] → lines_cost lines ≡ suc (length (joined sep lines))
joined-length sep [] h = absurd (h refl)
joined-length sep (p ∷ []) h = omega arith
joined-length sep (p ∷ q ∷ ps) h =
    omega
      (arith, joined-length sep (q ∷ ps) (λ e. cc e), length-append p (sep ∷ joined sep (q ∷ ps)))

module _ (c : Library) (d : Documented c) where
  -- The lines of a value take its length, and one byte more.
  pub split_cost : (s : Bytes) (sep : ℕ) → lines_cost (c.split_on_char s sep) ≡ suc (length s)
  split_cost s sep =
      joined-length sep (c.split_on_char s sep) (d.split_ne_nil s sep)
      ∙ ap (λ t. suc (length t)) (d.split_joined s sep)

  lookup-Stays :
      (cap used : ℕ) (b : ByteBuf) (s : Bytes)
      → cap ≤ b.capacity
      → length b.bytes ≤ used
      → Stays cap (used + length s) (c.append_with_lookup b s c.to_lower)
  lookup-Stays cap used b s k l =
      rw d.append_with_lookup_eq
        (rw (sym (length-map c.to_lower s)) (append_fixed-Stays cap used b (map c.to_lower s) k l))

  lookup-ne :
      (b : ByteBuf) (s : Bytes) → c.append_with_lookup b s c.to_lower ≢ err out_of_bounds_write
  lookup-ne b s = rw d.append_with_lookup_eq (append_fixed-ne b (map c.to_lower s))

  separator-Stays :
      (has : Bool) (cap used : ℕ) (b : ByteBuf) (v : ℕ)
      → cap ≤ b.capacity
      → length b.bytes ≤ used
      → Stays cap (suc used) (if has then append_character c b v else ok b)
  separator-Stays true cap used b v k l = append_character-Stays c d cap used b v k l
  separator-Stays false cap used b v k l = (k, omega arith)

  separator-ne :
      (has : Bool) (b : ByteBuf) (v : ℕ)
      → (if has then append_character c b v else ok b) ≢ err out_of_bounds_write
  separator-ne true b v = rw (append_character_lem c d) (λ e. cc e)
  separator-ne false b v = λ e. cc e

  name-Stays :
      (has : Bool) (name : Bytes) (cap used : ℕ) (b s : ByteBuf)
      → cap ≤ b.capacity
      → length b.bytes ≤ used
      → PairStays cap (used + length name + 2) (append_header_name c has name (b, s))
  unfolding append_header_name
  name-Stays has name cap used b s k l =
      Stays-bind-pair _ _ _ _ _ (separator-Stays has cap used b b'\n' k l) (λ b1 k1 l1.
        any-bind-pair _ _ _ _ (separator-ne has s b';') (λ s1.
          any-bind-pair _ _ _ _ (lookup-ne s1 name) (λ s2.
            Stays-bind-pair _ _ _ _ _ (lookup-Stays cap (suc used) b1 name k1 l1) (λ b2 k2 l2.
              Stays-bind-pair _ _ _ _ _
                (append_character-Stays c d cap (suc used + length name) b2 b':' k2 l2)
                (λ b3 k3 l3. (k3, omega arith))))))

  header-Stays :
      (h : Header) (last : Option Bytes) (cap used : ℕ) (b s : ByteBuf)
      → used + header_cost h ≤ cap
      → cap ≤ b.capacity
      → length b.bytes ≤ used
      → PairStays cap (used + header_cost h) (append_canonical_header c h last (b, s))
  unfolding append_canonical_header
  header-Stays h last cap used b s f k l = elim (Bool-cases (is_new_name c last h.name)) [
    | inl new ↦ rw new (
        PairStays-bind cap (used + length h.name + 2) _ _ _
          (name-Stays (is_some last) h.name cap used b s k l)
          (λ p k' l'.
            Stays-bind-pair _ _ _ _ _
              (lines-Stays c d (c.split_on_char h.value b'\n') false cap _ (length h.value) p.0
                (omega (arith, split_cost h.value b'\n')) (omega arith) k' l')
              (λ b'' k'' l''. (k'', omega arith))))
    | inr old ↦ rw old (
        Stays-bind-pair _ _ _ _ _
          (lines-Stays c d (c.split_on_char h.value b'\n') true cap used (length h.value + 1) b
            (omega (arith, split_cost h.value b'\n')) (omega arith) k l)
          (λ b'' k'' l''. (k'', omega arith)))
  ]

  headers-Stays :
      (ws : List StableHeader) (last : Option Bytes) (cap used : ℕ) (p : ByteBuf × ByteBuf)
      → used + total_cost ws ≤ cap
      → cap ≤ p.0.capacity
      → length p.0.bytes ≤ used
      → PairStays cap (used + total_cost ws) (append_canonical_headers c ws last p)
  unfolding append_canonical_headers
  headers-Stays [] last cap used p f k l = (k, omega arith)
  headers-Stays (w ∷ ws) last cap used p f k l =
      PairStays-bind cap (used + header_cost w.header) _ _ _
        (header-Stays w.header last cap used p.0 p.1 (omega arith) k l)
        (λ q k' l'.
          PairStays-mono cap _ _ (append_canonical_headers c ws (some w.header.name) q)
            (omega arith)
            (headers-Stays ws (some w.header.name) cap (used + header_cost w.header) q (omega arith)
              k' l'))

  -- Building the header block is a get, the checks, and the writes into a reserved buffer.
  sorted-Stays :
      (s : State) (hs : List Header)
      → s.canonical_header_block.bytes ≡ []
      → (let (list, _, required) = collect_headers c s hs in
          let size = required + length list * 2 in
          PairStays size size (
            append_canonical_headers c (qsort (canonical_header_comparator c) list) none (
              record s.canonical_header_block {
                capacity = max s.canonical_header_block.capacity size;
              },
              s.signed_headers,
            )))
  sorted-Stays s hs e =
      let ws = (collect_headers c s hs).0 in
      let sorted = qsort (canonical_header_comparator c) ws in
      let cost : total_cost sorted ≡ (collect_headers c s hs).2 + length ws * 2 = omega (
        arith,
        total_cost-qsort (canonical_header_comparator c) ws,
        total_cost-weight ws,
        weight-collect c s hs,
      ) in
      PairStays-mono _ (0 + total_cost sorted) _ (append_canonical_headers c sorted none _)
        (omega arith)
        (headers-Stays sorted none _ 0 _ (omega arith) (omega arith) (rw e (omega arith)))

  validate-ne : (hs : List Header) → validate_signable_header_list c hs ≢ err out_of_bounds_write
  unfolding validate_signable_header_list
  validate-ne [] = λ e. cc e
  validate-ne (h ∷ hs) = ground (arith, validate-ne hs)

  stays-ne :
      (cap used : ℕ) (m : Result (ByteBuf × ByteBuf))
      → PairStays cap used m
      → m ≢ err out_of_bounds_write
  stays-ne cap used (ok p) h = λ e. cc e
  stays-ne cap used (err e) h = λ q. h (cc q)

  -- Building the canonical headers makes no raw write behind the end of the header block's
  -- allocation, if the block is empty at the start: whatever the headers, their order and their
  -- lines, the error for such a write is not the outcome, unless reading the signable's header list
  -- itself were to give it.
  pub build_canonical_headers-in_bounds :
      (s : State)
      → s.canonical_header_block.bytes ≡ []
      → s.signable.get_property_list http_headers_list ≢ err out_of_bounds_write
      → build_canonical_headers c s ≢ err out_of_bounds_write
  unfolding build_canonical_headers build_canonical_stable_header_list
  build_canonical_headers-in_bounds s empty listed = ne-bind _ _ listed (λ hs got.
      ne-bind _ _ (validate-ne hs) (λ _ valid. rw got (
        simp (d.reserve_eq, append_character_lem c d, d.append_dynamic_eq)
          (ne-bind _ _ (stays-ne _ _ _ (sorted-Stays s hs empty)) (λ p built. λ e. cc e)))))
