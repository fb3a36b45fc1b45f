-- ===== src/Signing/Sign/Admission.antt =====
-- What aws_sign_request_aws lets in.
use aws_c_auth.Common.{
  ℕ, ◌+◌, Bool, true, false, [], ◌∷◌, ◌++◌, Option, none, some, Bytes, length, ◌==◌, if◌then◌else◌,
  ◌≡◌, ◌≢◌, ◌↔◌, refl, Error, mismatched_configuration, Result, ok, err, >>=-eq-ok, Returns,
  returns, arith, Bool-cases, inl, inr,
}
use aws_c_auth.External.{buf_init, Library, Documented, append_fixed}
use aws_c_auth.Signing.Config.{Config, validate_config}
use aws_c_auth.Signing.State.{State, Signable, Credentials, state_new}
use aws_c_auth.Signing.Sign.{
  Asked, takes, refuses, calls_and_refuses, ask_provider, ask_with, Completion, signing_config_aws,
  sign_request_aws, on_get_credentials,
}

-- A configuration that names a region, a service and a provider.
abbrev pub IsValid : Config → Type 0
IsValid config =
    (config.region ≢ []) × (config.service ≢ []) × (p : ℕ) × (config.credentials_provider ≡ some p)

-- The parts that the checks read, put into a configuration.
abbrev with_parts : Config → Bytes → Bytes → Option ℕ → Config
with_parts config region service provider = record config {
  region = region;
  service = service;
  credentials_provider = provider;
}

validate-parts :
    (config : Config) (region service : Bytes) (provider : Option ℕ)
    → (validate_config (some (with_parts config region service provider)) ≡ ok tt)
      ↔ IsValid (with_parts config region service provider)
unfolding validate_config
validate-parts config [] service provider = (λ e. cc e, λ h. absurd (h.0 refl))
validate-parts config (x ∷ region) [] provider = (λ e. ground (arith, e), λ h. absurd (h.1 refl))
validate-parts config (x ∷ region) (y ∷ service) none =
    (λ e. ground (arith, e), λ h. ground (arith, h))
validate-parts config (x ∷ region) (y ∷ service) (some p) =
    (λ e. (λ q. cc q, λ q. cc q, p, refl), λ h. ground arith)

validate_config-IsValid :
    (config : Config) → (validate_config (some config) ≡ ok tt) ↔ IsValid config
validate_config-IsValid config =
    validate-parts config config.region config.service config.credentials_provider

-- Whether a provider makes the callback and then returns an error.
abbrev pub calls_at_once : Asked → Bool
calls_at_once takes = false
calls_at_once (refuses e) = false
calls_at_once (calls_and_refuses credentials e) = true

module _ (c : Library) where
  ask_provider-quiet :
      (asked : Asked) (callback : Option Credentials → Completion)
      → calls_at_once asked ≡ false
      → (ask_provider c asked callback).0 ≡ []
  ask_provider-quiet takes callback h = refl
  ask_provider-quiet (refuses e) callback h = refl
  ask_provider-quiet (calls_and_refuses cr e) callback h = cc h

  ask_with-quiet :
      (m : Result State) (asked : Asked) → calls_at_once asked ≡ false → (ask_with c m asked).0 ≡ []
  ask_with-quiet (err e) asked h = refl
  ask_with-quiet (ok s) asked h = ask_provider-quiet asked (on_get_credentials c s) h

  -- no completion is made before the call returns
  pub sign_request_aws-quiet :
      (t : ℕ) (config : Config) (signable : Signable) (asked : Asked)
      → calls_at_once asked ≡ false
      → (sign_request_aws c t config signable asked).0 ≡ []
  unfolding sign_request_aws
  sign_request_aws-quiet t config signable asked h = elim (Bool-cases (t == signing_config_aws)) [
    | inl e ↦ rw e (ask_with-quiet (state_new c config signable) asked h)
    | inr e ↦ rw e refl
  ]

module _ (c : Library) (d : Documented c) where
  first_fits :
      (a b : Bytes)
      → append_fixed (buf_init (length a + length b)) a
        ≡ ok (record { bytes = a; capacity = length a + length b })
  first_fits a b = ground arith

  second_fits :
      (a b : Bytes)
      → append_fixed (record { bytes = a; capacity = length a + length b }) b
        ≡ ok (record { bytes = a ++ b; capacity = length a + length b })
  second_fits a b = ground arith

  -- The state that a valid configuration begins with.
  pub state_new-IsValid :
      (config : Config) (signable : Signable)
      → IsValid config
      → Returns (state_new c config signable) (λ s. s.config ≡ config)
  unfolding state_new
  state_new-IsValid config signable h =
      rw ((validate_config-IsValid config).1 h)
        (simp (d.append_eq, first_fits, second_fits) (returns _ _ refl))

  state_new-ok :
      (config : Config) (signable : Signable) (s : State)
      → state_new c config signable ≡ ok s
      → IsValid config
  unfolding state_new
  state_new-ok config signable s e =
      (validate_config-IsValid config).0 (>>=-eq-ok (validate_config (some config)) _ e).1

  asked-ok :
      (asked : Asked) (callback : Option Credentials → Completion)
      {k : Option Credentials → Completion}
      → (ask_provider c asked callback).1 ≡ ok k
      → asked ≡ takes
  asked-ok takes callback e = refl
  asked-ok (refuses r) callback e = cc e
  asked-ok (calls_and_refuses cr r) callback e = cc e

  state-ok :
      (m : Result State) (asked : Asked) {k : Option Credentials → Completion}
      → (ask_with c m asked).1 ≡ ok k
      → (s : State) × (m ≡ ok s) × (asked ≡ takes)
  state-ok (err r) asked e = cc e
  state-ok (ok s) asked e = (s, refl, asked-ok asked (on_get_credentials c s) e)

  under :
      {A B : Type 0} (b : Bool) (m : B × Result A) (n : B) (r : Error) {k : A}
      → (if b then m else (n, err r)).1 ≡ ok k
      → (b ≡ true) × (m.1 ≡ ok k)
  under true m n r e = (refl, e)
  under false m n r e = cc e

  admitted :
      (t : ℕ) (config : Config) (signable : Signable) (asked : Asked)
      (k : Option Credentials → Completion)
      → (sign_request_aws c t config signable asked).1 ≡ ok k
      → (t ≡ signing_config_aws) × IsValid config × (asked ≡ takes)
  unfolding sign_request_aws
  admitted t config signable asked k e =
      let (is, e') =
        under (t == signing_config_aws) (ask_with c (state_new c config signable) asked) []
          mismatched_configuration e in
      let (s, made, free) = state-ok (state_new c config signable) asked e' in
      (ground (arith, is), state_new-ok config signable s made, free)

  taken :
      (config : Config) (signable : Signable)
      → IsValid config
      → (k : Option Credentials → Completion) × ((sign_request_aws c signing_config_aws config
            signable takes).1
          ≡ ok k)
  unfolding sign_request_aws
  taken config signable h =
      let started = state_new-IsValid config signable h in
      (on_get_credentials c started.value, rw started.is_ok refl)

  -- A call of aws_sign_request_aws goes on to wait for credentials exactly when the configuration
  -- has the type for AWS signing and names a region, a service and a provider, and the provider returns
  -- no error as it is asked. In all other cases it returns an error.
  pub sign_request_aws-admission :
      (config_type : ℕ) (config : Config) (signable : Signable) (asked : Asked)
      → ((k : Option Credentials → Completion) × ((sign_request_aws c config_type config signable
              asked).1
            ≡ ok k))
        ↔ ((config_type ≡ signing_config_aws) × IsValid config × (asked ≡ takes))
  sign_request_aws-admission t config signable asked = (
    λ (k, e). admitted t config signable asked k e,
    λ (is, valid, free). rw is (rw free (taken config signable valid)),
  )
