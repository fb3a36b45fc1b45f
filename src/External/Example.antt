-- ===== src/External/Example.antt =====
-- Stand-ins for the libraries, as small concrete functions that have the documented properties:
-- they show that these can be met, and tests run on them. The digests are toys (sums of bytes).
pub mod Tests
use Prim.Native.Nat.{max, compare}
use mathlib.Core.List.{foldl, flatten}
use aws_c_auth.Common.{
  ℕ, ◌+◌, ◌*◌, ◌/◌, ◌%◌, ◌≤◌, Bool, true, false, not, ◌&&◌, List, [], ◌∷◌, ◌++◌, map, ◌≡◌, ◌∙◌, ap,
  refl, Ordering, Bytes, codes, length, all, bytes_eq, ltb, leb, ◌==◌, Bool-cases, inl, inr,
  if◌then◌else◌, Result, ok, arith,
}
use aws_c_auth.External.{
  ByteBuf, Uri, UriParam, Library, Documented, append_fixed, grown_to, joined,
}

unfoldable pub prepend : ℕ → List Bytes → List Bytes
prepend x [] = (x ∷ []) ∷ []
prepend x (p ∷ ps) = (x ∷ p) ∷ ps

unfoldable pub split : Bytes → ℕ → List Bytes
split [] sep = [] ∷ []
split (x ∷ s) sep = let rest = split s sep in if x == sep then [] ∷ rest else prepend x rest

split_cons : (s : Bytes) (sep : ℕ) → (p : Bytes) × (ps : List Bytes) × (split s sep ≡ p ∷ ps)
unfolding split prepend
split_cons [] sep = ([], [], refl)
split_cons (x ∷ s) sep = elim (Bool-cases (x == sep)) [
  | inl e ↦ ([], split s sep, rw e refl)
  | inr e ↦ let (p, ps, h) = split_cons s sep in (x ∷ p, ps, rw e (rw h refl))
]

joined-prepend : (x sep : ℕ) (l : List Bytes) → joined sep (prepend x l) ≡ x ∷ joined sep l
unfolding prepend
joined-prepend x sep [] = refl
joined-prepend x sep (p ∷ []) = refl
joined-prepend x sep (p ∷ q ∷ ps) = refl

joined-nil : (sep : ℕ) (s : Bytes) → joined sep ([] ∷ split s sep) ≡ sep ∷ joined sep (split s sep)
joined-nil sep s = let (p, ps, h) = split_cons s sep in rw h refl

joined-split : (s : Bytes) (sep : ℕ) → joined sep (split s sep) ≡ s
unfolding split
joined-split [] sep = refl
joined-split (x ∷ s) sep =
    ground (arith, joined-split s sep, joined-prepend x sep (split s sep), joined-nil sep s)

free-prepend :
    (x sep : ℕ) (l : List Bytes)
    → (x == sep) ≡ false
    → all (all (λ y. not (y == sep))) l ≡ true
    → all (all (λ y. not (y == sep))) (prepend x l) ≡ true
unfolding prepend all
free-prepend x sep [] e h = rw e refl
free-prepend x sep (p ∷ ps) e h = rw e h

free-split : (s : Bytes) (sep : ℕ) → all (all (λ x. not (x == sep))) (split s sep) ≡ true
unfolding split all
free-split [] sep = refl
free-split (x ∷ s) sep = elim (Bool-cases (x == sep)) [
  | inl e ↦ rw e (free-split s sep)
  | inr e ↦ rw e (free-prepend x sep (split s sep) e (free-split s sep))
]

unfoldable pub left_trim : Bytes → (ℕ → Bool) → Bytes
left_trim [] p = []
left_trim (x ∷ s) p = let rest = left_trim s p in if p x then rest else x ∷ s

unfoldable pub right_trim : Bytes → (ℕ → Bool) → Bytes
right_trim [] p = []
right_trim (x ∷ s) p = let rest = right_trim s p in if all p (x ∷ s) then [] else x ∷ rest

length-left_trim : (s : Bytes) (p : ℕ → Bool) → length (left_trim s p) ≤ length s
unfolding left_trim
length-left_trim [] p = omega arith
length-left_trim (x ∷ s) p = ground (arith, length-left_trim s p)

length-right_trim : (s : Bytes) (p : ℕ → Bool) → length (right_trim s p) ≤ length s
unfolding right_trim
length-right_trim [] p = omega arith
length-right_trim (x ∷ s) p = ground (arith, length-right_trim s p)

unfoldable pub sum : Bytes → ℕ
sum [] = 0
sum (x ∷ s) = x + sum s

sum-append : (a b : Bytes) → sum (a ++ b) ≡ sum a + sum b
unfolding sum
sum-append [] b = omega arith
sum-append (x ∷ a) b = omega (arith, sum-append a b)

sum-foldl :
    (chunks : List Bytes) (h : ℕ) → foldl (λ h s. h + sum s) h chunks ≡ h + sum (flatten chunks)
unfolding sum flatten
sum-foldl [] h = omega arith
sum-foldl (x ∷ chunks) h =
    omega (arith, sum-foldl chunks (h + sum x), sum-append x (flatten chunks))

unfoldable pub compare_bytes : Bytes → Bytes → Ordering
compare_bytes [] [] = Ordering.eq
compare_bytes [] (y ∷ b) = Ordering.lt
compare_bytes (x ∷ a) [] = Ordering.gt
compare_bytes (x ∷ a) (y ∷ b) =
    let rest = compare_bytes a b in
    elim (compare x y) [
      | Ordering.eq ↦ rest
      | Ordering.lt ↦ Ordering.lt
      | Ordering.gt ↦ Ordering.gt
    ]

compare_bytes-gt : (a b : Bytes) → compare_bytes a b ≡ Ordering.gt → compare_bytes b a ≡ Ordering.lt
unfolding compare_bytes
compare_bytes-gt [] [] e = cc
compare_bytes-gt [] (y ∷ b) e = cc
compare_bytes-gt (x ∷ a) [] e = refl
compare_bytes-gt (x ∷ a) (y ∷ b) e = ground (arith, e, compare_bytes-gt a b)

compare_bytes-eq : (a b : Bytes) → compare_bytes a b ≡ Ordering.eq → compare_bytes b a ≡ Ordering.eq
unfolding compare_bytes
compare_bytes-eq [] [] e = refl
compare_bytes-eq [] (y ∷ b) e = cc
compare_bytes-eq (x ∷ a) [] e = cc
compare_bytes-eq (x ∷ a) (y ∷ b) e = ground (arith, e, compare_bytes-eq a b)

compare_bytes_refl : (a : Bytes) → compare_bytes a a ≡ Ordering.eq
unfolding compare_bytes
compare_bytes_refl [] = refl
compare_bytes_refl (x ∷ a) = ground (arith, compare_bytes_refl a)

compare_bytes-same : (a b : Bytes) → compare_bytes a b ≡ Ordering.eq → a ≡ b
unfolding compare_bytes
compare_bytes-same [] [] e = refl
compare_bytes-same [] (y ∷ b) e = cc
compare_bytes-same (x ∷ a) [] e = cc
compare_bytes-same (x ∷ a) (y ∷ b) e = ground (arith, e, compare_bytes-same a b)

unfoldable pub lower : ℕ → ℕ
lower x = if leb b'A' x && leb x b'Z' then x + 32 else x

unfoldable pub digit : ℕ → ℕ
digit n = if ltb n 10 then b'0' + n else n + 87

unfoldable pub hex_of : Bytes → Bytes
hex_of [] = []
hex_of (x ∷ s) = digit (x / 16 % 16) ∷ digit (x % 16) ∷ hex_of s

unfoldable pub encode : Bytes → Bytes
encode [] = []
encode (x ∷ s) = if x == b' ' then codes "%20" ++ encode s else x ∷ encode s

unfoldable pub param_of : List Bytes → UriParam
param_of [] = record { key = []; value = [] }
param_of (k ∷ []) = record { key = k; value = [] }
param_of (k ∷ v ∷ _) = record { key = k; value = v }

unfoldable pub uri_of : List Bytes → Uri
uri_of [] = record { path = []; query_string = [] }
uri_of (p ∷ []) = record { path = p; query_string = [] }
uri_of (p ∷ q ∷ _) = record { path = p; query_string = q }

unfoldable pub query_params : Bytes → List UriParam
query_params [] = []
query_params (x ∷ s) = map (λ f. param_of (split f b'=')) (split (x ∷ s) b'&')

unfoldable pub capacity_of : ByteBuf → Bytes → ℕ
capacity_of b s = max b.capacity (length b.bytes + length s)

unfoldable pub grow : ByteBuf → Bytes → Result ByteBuf
grow b s = ok (grown_to b s (capacity_of b s))

-- An example of the libraries.
abbrev pub sample : Library
sample = record {
  append = append_fixed;
  append_with_lookup = λ b s f. append_fixed b (map f s);
  append_dynamic = grow;
  reserve = λ b n. ok (record b { capacity = max b.capacity n });
  reserve_relative = λ b n. ok (record b { capacity = max b.capacity (length b.bytes + n) });
  split_on_char = split;
  left_trim_pred = left_trim;
  right_trim_pred = right_trim;
  trim_pred = λ s p. right_trim (left_trim s p) p;
  compare_lexical = compare_bytes;
  compare_lookup = λ a b f. compare_bytes (map f a) (map f b);
  eq_ignore_case = λ a b. bytes_eq (map lower a) (map lower b);
  to_lower = lower;
  hex_encode_append_dynamic = λ s b. grow b (hex_of s);
  append_encoding_uri_path = λ b s. grow b (encode s);
  append_encoding_uri_param = λ b s. grow b (encode s);
  uri_init_parse = λ s. ok (uri_of (split s b'?'));
  uri_query_string_params = λ u. ok (query_params u.query_string);
  date_time_str_max_len = 100;
  date_time_to_utc_time_str = λ t b. append_fixed b (codes "20150830T123600Z");
  date_time_to_utc_time_short_str = λ t b. append_fixed b (codes "20150830");
  sha256_len = 1;
  sha256_new = 0;
  hash_update = λ h s. h + sum s;
  hash_finalize = λ h b. append_fixed b (h ∷ []);
  sha256_compute = λ s b. append_fixed b (sum s ∷ []);
  sha256_hmac_compute = λ k s b. append_fixed b ((sum k + 2 * sum s) ∷ []);
}

pub sample_documented : Documented sample
unfolding grow capacity_of codes
sample_documented = record {
  grown = capacity_of;
  grown_keeps = λ b s. omega arith;
  hex_grown = λ b s. capacity_of b (hex_of s);
  encoding_grown = λ b s. capacity_of b (encode s);
  encoding_grown_keeps = λ b s. omega arith;
  append_eq = λ b s. refl;
  append_with_lookup_eq = λ b s f. refl;
  append_dynamic_eq = λ b s. refl;
  reserve_eq = λ b n. refl;
  reserve_relative_eq = λ b n. refl;
  split_joined = joined-split;
  split_free = free-split;
  split_ne_nil = λ s sep e. let (p, ps, h) = split_cons s sep in cc;
  compare_lexical_gt = compare_bytes-gt;
  compare_lexical_eq = compare_bytes-eq;
  compare_lexical_refl = compare_bytes_refl;
  compare_lexical_same = compare_bytes-same;
  compare_lookup_eq = λ a b f. refl;
  trim_length = λ s p. omega (arith, length-right_trim (left_trim s p) p, length-left_trim s p);
  hex = hex_of;
  hex_eq = λ s b. refl;
  encode_path = encode;
  encode_path_eq = λ b s. refl;
  encode_param = encode;
  encode_param_eq = λ b s. refl;
  date_str = λ t. codes "20150830T123600Z";
  date_str_fits = λ t. omega arith;
  date_str_eq = λ t b h. ground (arith, h);
  short_date_str = λ t. codes "20150830";
  short_date_str_fits = λ t. omega arith;
  short_date_str_eq = λ t b h. ground (arith, h);
  sha256 = λ s. sum s ∷ [];
  sha256_length = λ s. refl;
  sha256_eq = λ s b. refl;
  hash_eq = λ chunks b. ap (λ h. append_fixed b (h ∷ [])) (sum-foldl chunks 0 ∙ omega arith);
  hmac = λ k s. (sum k + 2 * sum s) ∷ [];
  hmac_length = λ k s. refl;
  hmac_eq = λ k s b. refl;
}
