-- ===== src/External.antt =====
-- The libraries that aws-c-auth is built on: aws-c-common (byte buffers, cursors, sorting
-- predicates, dates, URI encoding), aws-c-cal (SHA-256 and HMAC) and aws-c-io (URI parsing, input
-- streams). Their code is not in the repository: each routine is a field of `Library`, which the
-- models take as an argument. `Documented` states what their headers document, as far as the
-- proofs rely on it, with memory that does not run out.
pub mod Example
use Prim.Native.Nat.{max}
use mathlib.Core.List.{foldl, flatten}
use aws_c_auth.Common.{
  ℕ, ◌+◌, ◌<◌, ◌≤◌, Bool, true, not, List, [], ◌∷◌, ◌++◌, map, ◌≡◌, ◌≢◌, Ordering, Bytes, length,
  all, leb, ◌==◌, if◌then◌else◌, Result, ok, err, dest_copy_too_small,
}

-- struct aws_byte_buf: the bytes written and the size of the allocation.
pub record ByteBuf : Type 0 where
  pub bytes : Bytes
  pub capacity : ℕ

-- aws_byte_buf_init with memory at hand.
abbrev pub buf_init : ℕ → ByteBuf
buf_init n = record { bytes = []; capacity = n }

-- The fields of struct aws_uri that the code reads.
pub record Uri : Type 0 where
  pub path : Bytes
  pub query_string : Bytes

-- struct aws_uri_param
pub record UriParam : Type 0 where
  pub key : Bytes
  pub value : Bytes

pub record Library : Type 0 where
  -- aws/common/byte_buf.h
  pub append : ByteBuf → Bytes → Result ByteBuf
  pub append_with_lookup : ByteBuf → Bytes → (ℕ → ℕ) → Result ByteBuf
  pub append_dynamic : ByteBuf → Bytes → Result ByteBuf
  pub reserve : ByteBuf → ℕ → Result ByteBuf
  pub reserve_relative : ByteBuf → ℕ → Result ByteBuf
  -- the pieces that aws_byte_cursor_split_on_char stores, and that successive calls of
  -- aws_byte_cursor_next_split give
  pub split_on_char : Bytes → ℕ → List Bytes
  pub left_trim_pred : Bytes → (ℕ → Bool) → Bytes
  pub right_trim_pred : Bytes → (ℕ → Bool) → Bytes
  pub trim_pred : Bytes → (ℕ → Bool) → Bytes
  pub compare_lexical : Bytes → Bytes → Ordering
  pub compare_lookup : Bytes → Bytes → (ℕ → ℕ) → Ordering
  pub eq_ignore_case : Bytes → Bytes → Bool
  -- the table of aws_lookup_table_to_lower_get
  pub to_lower : ℕ → ℕ
  -- aws/common/encoding.h, aws/io/uri.h
  pub hex_encode_append_dynamic : Bytes → ByteBuf → Result ByteBuf
  pub append_encoding_uri_path : ByteBuf → Bytes → Result ByteBuf
  pub append_encoding_uri_param : ByteBuf → Bytes → Result ByteBuf
  pub uri_init_parse : Bytes → Result Uri
  pub uri_query_string_params : Uri → Result (List UriParam)
  -- aws/common/date_time.h, at AWS_DATE_FORMAT_ISO_8601_BASIC; an aws_date_time is a number
  pub date_time_str_max_len : ℕ
  pub date_time_to_utc_time_str : ℕ → ByteBuf → Result ByteBuf
  pub date_time_to_utc_time_short_str : ℕ → ByteBuf → Result ByteBuf
  -- aws/cal/hash.h, aws/cal/hmac.h; the state of a running hash is a number
  pub sha256_len : ℕ
  pub sha256_new : ℕ
  pub hash_update : ℕ → Bytes → ℕ
  pub hash_finalize : ℕ → ByteBuf → Result ByteBuf
  pub sha256_compute : Bytes → ByteBuf → Result ByteBuf
  pub sha256_hmac_compute : Bytes → Bytes → ByteBuf → Result ByteBuf

-- An append that never moves the buffer: it fails where the room does not suffice.
abbrev pub append_fixed : ByteBuf → Bytes → Result ByteBuf
append_fixed b s =
    if leb (length b.bytes + length s) b.capacity
    then ok (record b { bytes = b.bytes ++ s })
    else err dest_copy_too_small

-- `b` after a dynamic append of `s`, in an allocation of `n` bytes.
abbrev pub grown_to : ByteBuf → Bytes → ℕ → ByteBuf
grown_to b s n = record { bytes = b.bytes ++ s; capacity = n }

-- The pieces of a split are what stands between the separators: their bytes and the separators
-- make up the input.
abbrev pub joined : ℕ → List Bytes → Bytes
joined sep [] = []
joined sep (p ∷ []) = p
joined sep (p ∷ ps) = p ++ (sep ∷ joined sep ps)

-- The documented behaviour. `grown`, `hex_grown` and `encoding_grown` are the capacities that a dynamic
-- append and the encodings of a text leave; `hex`,
-- `encode_path`, `encode_param`, `sha256`, `hmac`, `date_str` and `short_date_str` are the texts
-- that the routines append.
pub record Documented (c : Library) : Type 0 where
  pub grown : ByteBuf → Bytes → ℕ
  pub grown_keeps : (b : ByteBuf) (s : Bytes) → b.capacity ≤ grown b s
  pub hex_grown : ByteBuf → Bytes → ℕ
  pub encoding_grown : ByteBuf → Bytes → ℕ
  pub encoding_grown_keeps : (b : ByteBuf) (s : Bytes) → b.capacity ≤ encoding_grown b s
  pub append_eq : (b : ByteBuf) (s : Bytes) → c.append b s ≡ append_fixed b s
  pub append_with_lookup_eq :
      (b : ByteBuf) (s : Bytes) (f : ℕ → ℕ) → c.append_with_lookup b s f ≡ append_fixed b (map f s)
  pub append_dynamic_eq :
      (b : ByteBuf) (s : Bytes) → c.append_dynamic b s ≡ ok (grown_to b s (grown b s))
  pub reserve_eq :
      (b : ByteBuf) (n : ℕ) → c.reserve b n ≡ ok (record b { capacity = max b.capacity n })
  pub reserve_relative_eq :
      (b : ByteBuf) (n : ℕ)
      → c.reserve_relative b n ≡ ok (record b { capacity = max b.capacity (length b.bytes + n) })
  pub split_joined : (s : Bytes) (sep : ℕ) → joined sep (c.split_on_char s sep) ≡ s
  pub split_free :
      (s : Bytes) (sep : ℕ) → all (all (λ x. not (x == sep))) (c.split_on_char s sep) ≡ true
  pub split_ne_nil : (s : Bytes) (sep : ℕ) → c.split_on_char s sep ≢ []
  -- the lexical order is the same from both sides
  pub compare_lexical_gt :
      (a b : Bytes) → c.compare_lexical a b ≡ Ordering.gt → c.compare_lexical b a ≡ Ordering.lt
  pub compare_lexical_eq :
      (a b : Bytes) → c.compare_lexical a b ≡ Ordering.eq → c.compare_lexical b a ≡ Ordering.eq
  pub compare_lexical_refl : (a : Bytes) → c.compare_lexical a a ≡ Ordering.eq
  pub compare_lexical_same : (a b : Bytes) → c.compare_lexical a b ≡ Ordering.eq → a ≡ b
  -- a lexical comparison, with each byte mapped by the table first
  pub compare_lookup_eq :
      (a b : Bytes) (f : ℕ → ℕ) → c.compare_lookup a b f ≡ c.compare_lexical (map f a) (map f b)
  pub trim_length : (s : Bytes) (p : ℕ → Bool) → length (c.trim_pred s p) ≤ length s
  pub hex : Bytes → Bytes
  pub hex_eq :
      (s : Bytes) (b : ByteBuf)
      → c.hex_encode_append_dynamic s b ≡ ok (grown_to b (hex s) (hex_grown b s))
  pub encode_path : Bytes → Bytes
  pub encode_path_eq :
      (b : ByteBuf) (s : Bytes)
      → c.append_encoding_uri_path b s ≡ ok (grown_to b (encode_path s) (encoding_grown b s))
  pub encode_param : Bytes → Bytes
  pub encode_param_eq :
      (b : ByteBuf) (s : Bytes)
      → c.append_encoding_uri_param b s ≡ ok (grown_to b (encode_param s) (encoding_grown b s))
  -- the routines write a zero byte behind a date, for which there has to be room
  pub date_str : ℕ → Bytes
  pub date_str_fits : (t : ℕ) → length (date_str t) < c.date_time_str_max_len
  pub date_str_eq :
      (t : ℕ) (b : ByteBuf)
      → length b.bytes + length (date_str t) < b.capacity
      → c.date_time_to_utc_time_str t b ≡ ok (record b { bytes = b.bytes ++ date_str t })
  pub short_date_str : ℕ → Bytes
  pub short_date_str_fits : (t : ℕ) → length (short_date_str t) < c.date_time_str_max_len
  pub short_date_str_eq :
      (t : ℕ) (b : ByteBuf)
      → length b.bytes + length (short_date_str t) < b.capacity
      → c.date_time_to_utc_time_short_str t b
        ≡ ok (record b { bytes = b.bytes ++ short_date_str t })
  pub sha256 : Bytes → Bytes
  pub sha256_length : (s : Bytes) → length (sha256 s) ≡ c.sha256_len
  pub sha256_eq : (s : Bytes) (b : ByteBuf) → c.sha256_compute s b ≡ append_fixed b (sha256 s)
  -- a running hash that was fed the pieces of `chunks` in order
  pub hash_eq :
      (chunks : List Bytes) (b : ByteBuf)
      → c.hash_finalize (foldl c.hash_update c.sha256_new chunks) b
        ≡ append_fixed b (sha256 (flatten chunks))
  pub hmac : Bytes → Bytes → Bytes
  pub hmac_length : (k s : Bytes) → length (hmac k s) ≡ c.sha256_len
  pub hmac_eq :
      (k s : Bytes) (b : ByteBuf) → c.sha256_hmac_compute k s b ≡ append_fixed b (hmac k s)
