-- ===== src/Providers/Chain.antt =====
-- The provider chain, source/credentials_provider_chain.c, and the default chain of
-- source/credentials.c.
pub mod First
pub mod Default
pub mod Shutdown
pub mod Redirect
use aws_c_auth.Common.{
  ℕ, zero, suc, ◌+◌, ◌-◌, ◌*◌, Bool, true, false, ◌||◌, List, [], ◌∷◌, ◌++◌, Option, none, some,
  length, ltb, leb, ◌==◌, if◌then◌else◌,
}
use aws_c_auth.Signing.State.{Credentials}
use aws_c_auth.Providers.Lifetime.{Provider, provider_acquire, provider_release}

-- What a member does with a query: it calls back with its credentials or none, whatever it then
-- returns, or it returns an error and makes no callback.
pub data Member : Type 0 where
  calls_back : Option Credentials → Member
  refuses : Member

-- What comes of a query to a chain: the original callback is made, it is never made, or the call
-- returns an error. The number is the reference count of the chain behind it.
pub data ChainOutcome : Type 0 where
  called_back : Option Credentials → ℕ → ChainOutcome
  never_called_back : ℕ → ChainOutcome
  chain_error : ChainOutcome
  out_of_fuel : ChainOutcome

-- the element of a list at an index; `none` is an index out of range
unfoldable pub get_at {ℓ} : {A : Type ℓ} → List A → ℕ → Option A
get_at [] i = none
get_at (x ∷ xs) zero = some x
get_at (x ∷ xs) (suc i) = get_at xs i

abbrev pub is_there : Option Credentials → Bool
is_there none = false
is_there (some _) = true

-- aws_credentials_provider_get_credentials on a member, with the callback that it is given
unfoldable pub ask_member : Member → (Option Credentials → ChainOutcome) → ℕ → ChainOutcome
ask_member (calls_back credentials) callback references = callback credentials
ask_member refuses callback references = never_called_back references

-- aws_provider_chain_member_callback, on fuel: a query goes on to members of greater index only. The
-- chain's reference is released behind the original callback.
unfoldable pub member_callback : ℕ → List Member → ℕ → ℕ → Option Credentials → ChainOutcome
member_callback zero providers references index credentials = out_of_fuel
member_callback (suc fuel) providers references index credentials =
    elim (is_there credentials || leb (length providers) (index + 1)) [
      | true ↦ called_back credentials (references - 1)
      | false ↦ elim (get_at providers (index + 1)) [
        | none ↦ called_back credentials (references - 1)
        | some next_provider ↦
            ask_member next_provider (member_callback fuel providers references (index + 1))
              references
      ]
    ]

-- s_credentials_provider_chain_get_credentials_async, with the chain's reference count; each member is
-- asked once at most, so their number is fuel enough
unfoldable pub chain_get_credentials_async : List Member → ℕ → ChainOutcome
chain_get_credentials_async providers references = elim (get_at providers 0) [
  | none ↦ chain_error
  | some first_provider ↦
      ask_member first_provider (member_callback (length providers) providers (references + 1) 0)
        (references + 1)
]
