-- ===== src/Signing/Headers/Reserve.antt =====
-- What the first pass over the headers reserves for the second.
use aws_c_auth.Common.{
  ℕ, ◌+◌, ◌*◌, Bool, true, false, not, List, [], ◌∷◌, ◌++◌, Option, none, some, Bytes, length,
  if◌then◌else◌, ◌≡◌, refl, arith, Bool-cases, inl, inr, Ordering,
}
use aws_c_auth.Common.Sort.{qsort, insert_sorted}
use aws_c_auth.External.{Library}
use aws_c_auth.Signing.Config.{is_query_param_auth, signs_body}
use aws_c_auth.Signing.State.{State, Header, should_sign_param, security_token_name}
use aws_c_auth.Signing.Headers.{
  StableHeader, wrap_signable_header, wrap_signable_headers, add_header, add_security_token_header,
  collect_headers,
}

-- What the source reserves for a header: its name and value, ':' and a newline.
abbrev pub header_cost : Header → ℕ
header_cost h = length h.name + length h.value + 2

abbrev pub total_cost : List StableHeader → ℕ
total_cost [] = 0
total_cost (w ∷ ws) = header_cost w.header + total_cost ws

total_cost-insert :
    (cmp : StableHeader → StableHeader → Ordering) (w : StableHeader) (ws : List StableHeader)
    → total_cost (insert_sorted cmp w ws) ≡ header_cost w.header + total_cost ws
unfolding insert_sorted
total_cost-insert cmp w [] = refl
total_cost-insert cmp w (v ∷ ws) = ground (arith, total_cost-insert cmp w ws)

pub total_cost-qsort :
    (cmp : StableHeader → StableHeader → Ordering) (ws : List StableHeader)
    → total_cost (qsort cmp ws) ≡ total_cost ws
unfolding qsort
total_cost-qsort cmp [] = refl
total_cost-qsort cmp (w ∷ ws) =
    omega (arith, total_cost-insert cmp w (qsort cmp ws), total_cost-qsort cmp ws)

-- the bytes counted for the names and values of wrapped headers
abbrev pub weight : List StableHeader → ℕ
weight [] = 0
weight (w ∷ ws) = length w.header.name + length w.header.value + weight ws

weight-append : (ws vs : List StableHeader) → weight (ws ++ vs) ≡ weight ws + weight vs
weight-append [] vs = omega arith
weight-append (w ∷ ws) vs = omega (arith, weight-append ws vs)

pub total_cost-weight : (ws : List StableHeader) → total_cost ws ≡ weight ws + length ws * 2
total_cost-weight [] = omega arith
total_cost-weight (w ∷ ws) = omega (arith, total_cost-weight ws)

module _ (c : Library) where
  weight-wrap_one :
      (s : State) (i : ℕ) (h : Header) (acc : List StableHeader × ℕ)
      → weight acc.0 ≡ acc.1
      → weight (wrap_signable_header c s i h acc).0 ≡ (wrap_signable_header c s i h acc).1
  unfolding wrap_signable_header
  weight-wrap_one s i h (list, required) e =
      ground (arith, weight-append list (record { header = h; original_index = i } ∷ []))

  weight-wrap :
      (s : State) (i : ℕ) (hs : List Header) (acc : List StableHeader × ℕ)
      → weight acc.0 ≡ acc.1
      → weight (wrap_signable_headers c s i hs acc).0 ≡ (wrap_signable_headers c s i hs acc).1
  unfolding wrap_signable_headers
  weight-wrap s i [] acc e = e
  weight-wrap s i (h ∷ hs) acc e =
      weight-wrap s (i + 1) hs (wrap_signable_header c s i h acc) (weight-wrap_one s i h acc e)

  weight-add_header :
      (h : Header) (acc : List StableHeader × ℕ × ℕ)
      → weight acc.0 ≡ acc.2
      → weight (add_header c h acc).0 ≡ (add_header c h acc).2
  unfolding add_header
  weight-add_header h (list, i, required) e =
      omega (arith, weight-append list (record { header = h; original_index = i } ∷ []))

  weight-add_security_token_header :
      (s : State) (token : Option Bytes) (acc : List StableHeader × ℕ × ℕ)
      → weight acc.0 ≡ acc.2
      → weight (add_security_token_header c s token acc).0
        ≡ (add_security_token_header c s token acc).2
  unfolding add_security_token_header
  weight-add_security_token_header s none acc e = e
  weight-add_security_token_header s (some token) acc e =
      elim (Bool-cases (should_sign_param c s security_token_name)) [
        | inl signed ↦
            rw signed
              (weight-add_header (record { name = security_token_name; value = token }) acc e)
        | inr skipped ↦ rw skipped e
      ]

  weight-if :
      (t : Bool) (h : Header) (acc : List StableHeader × ℕ × ℕ)
      → weight acc.0 ≡ acc.2
      → weight (if t then add_header c h acc else acc).0 ≡ (if t then add_header c h acc else acc).2
  weight-if true h acc e = weight-add_header h acc e
  weight-if false h acc e = e

  pub weight-collect :
      (s : State) (hs : List Header)
      → weight (collect_headers c s hs).0 ≡ (collect_headers c s hs).2
  unfolding collect_headers
  weight-collect s hs = weight-if (signs_body s.config.body_signing_type) _ _ (
      weight-if (not (is_query_param_auth s.config.algorithm)) _ _ (
        weight-add_security_token_header s s.credentials.session_token _
          (weight-wrap s 0 hs ([], 0) refl)))
