-- ===== src/Common/Results.antt =====
-- Outcomes of fallible functions: AWS_OP_SUCCESS with the value that the function leaves in its
-- out parameters, or AWS_OP_ERR with the error that was raised.
use Prim.Native.Nat.{ℕ}
use mathlib.Core.Path.{◌≡◌, refl}
use mathlib.Core.Bool.{Bool, true, false}

-- The error codes that the modelled code raises, or passes on from a library.
pub data Error : Type 0 where
  unsupported_algorithm illegal_request_query_param illegal_request_header : Error
  invalid_configuration mismatched_configuration no_credentials : Error
  -- AWS_ERROR_DEST_COPY_TOO_SMALL
  dest_copy_too_small : Error
  -- AWS_OP_ERR returned with no error raised
  unraised : Error
  -- the read of a variable that the source leaves uninitialized
  indeterminate : Error
  -- a loop that has not ended within the observed run of its environment
  unfinished : Error
  -- a raw write behind the end of an allocation
  out_of_bounds_write : Error
  -- an object that is destroyed behind its end
  freed_twice : Error
  library_error : ℕ → Error

pub data Result {ℓ} (A : Type ℓ) : Type ℓ where
  ok : A → Result A
  err : Error → Result A

module _ {ℓ κ} {A : Type ℓ} {B : Type κ} where
  infixl 5 ◌>>=◌
  -- The rest runs on the value of a success; an error ends the row.
  abbrev pub ◌>>=◌ : Result A → (A → Result B) → Result B
  err e >>= rest = err e
  ok value >>= rest = rest value

  -- What a success of the whole says about the first part and the rest.
  pub >>=-eq-ok :
      (first : Result A) (rest : A → Result B) {outcome : B}
      → (first >>= rest) ≡ ok outcome
      → (value : A) × (first ≡ ok value) × (rest value ≡ ok outcome)
  >>=-eq-ok (err e) rest done = cc
  >>=-eq-ok (ok value) rest done = (value, refl, done)

pub >>=-assoc {ℓ κ μ} :
    {A : Type ℓ} {B : Type κ} {C : Type μ} (m : Result A) (f : A → Result B) (g : B → Result C)
    → ((m >>= f) >>= g) ≡ (m >>= (λ a. f a >>= g))
>>=-assoc (ok a) f g = refl
>>=-assoc (err e) f g = refl

module _ {ℓ} {B : Type ℓ} where
  infixl 5 ◌>>◌
  abbrev pub ◌>>◌ : Result (Unit {0}) → Result B → Result B
  first >> rest = first >>= λ _. rest

abbrev pub guard : Bool → Error → Result (Unit {0})
guard true e = ok tt
guard false e = err e

-- The result is a value, and that value satisfies `P`.
pub record Returns {ℓ} {A : Type ℓ} (m : Result A) (P : A → Type 0) : Type ℓ where
  pub value : A
  pub is_ok : m ≡ ok value
  pub holds : P value

module _ {ℓ} {A : Type ℓ} where
  pub returns : (P : A → Type 0) (a : A) → P a → Returns (ok a) P
  returns P a h = record { value = a; is_ok = refl; holds = h }

  pub Returns-map :
      {m : Result A} (P Q : A → Type 0) → Returns m P → ((a : A) → P a → Q a) → Returns m Q
  Returns-map P Q r f = record { value = r.value; is_ok = r.is_ok; holds = f r.value r.holds }

pub Returns-bind {ℓ κ} :
    {A : Type ℓ} {B : Type κ} (P : A → Type 0) (Q : B → Type 0) (m : Result A) (f : A → Result B)
    → Returns m P
    → ((a : A) → P a → Returns (f a) Q)
    → Returns (m >>= f) Q
Returns-bind P Q m f r k =
    let next = k r.value r.holds in
    record { value = next.value; is_ok = rw r.is_ok next.is_ok; holds = next.holds }
