-- ===== src/Providers/Chain/Default.antt =====
-- The default chain, aws_credentials_provider_new_chain_default of source/credentials.c, and the members
-- that it leaves in the chain.
use aws_c_auth.Common.{
  ℕ, zero, suc, Bool, true, false, List, [], ◌∷◌, ◌++◌, Option, none, some, length, if◌then◌else◌,
  ◌≡◌, refl, arith,
}
use aws_c_auth.Providers.Lifetime.{Provider, provider_acquire, provider_release}

pub data Kind : Type 0 where
  environment profile imds : Kind

-- A provider that was made, with what it is.
pub record Made : Type 0 where
  pub kind : Kind
  pub provider : Provider

-- the first `n` places of the array of providers
unfoldable pub take {ℓ} : {A : Type ℓ} → ℕ → List A → List A
take zero xs = []
take (suc n) [] = []
take (suc n) (x ∷ xs) = x ∷ take n xs

-- aws_credentials_provider_new_chain: none where there is no provider, else the members, to each of
-- which it takes a reference
unfoldable pub new_chain : ℕ → List Made → Option (List Made)
new_chain zero providers = none
new_chain (suc n) providers = some (take (suc n) providers)

-- how many references a chain has taken to a provider
abbrev same : Kind → Kind → Bool
same environment environment = true
same profile profile = true
same imds imds = true
same _ _ = false

unfoldable pub acquired : List Made → Made → Provider
acquired [] made = made.provider
acquired (member ∷ members) made =
    let rest = acquired members made in
    if same member.kind made.kind then provider_acquire rest else rest

-- The kinds of the members that the chain is left with, and the providers that were destroyed when the
-- function released its own references to them.
pub record DefaultChain : Type 0 where
  pub members : List Kind
  pub destroyed : List Kind
  -- refresh_time_in_milliseconds of the cache around the chain
  pub refresh_time_in_milliseconds : ℕ

unfoldable pub kinds : List Made → List Kind
kinds [] = []
kinds (made ∷ rest) = made.kind ∷ kinds rest

-- the release of each provider, with the kinds of those whose last reference it was
unfoldable pub release_all : List Made → List Made → List Kind
release_all members [] = []
release_all members (made ∷ rest) =
    let later = release_all members rest in
    if (provider_release (acquired members made)).1 then made.kind ∷ later else later

abbrev pub default_refresh_ms : ℕ
default_refresh_ms = 900000

-- the chain and the cache over it
abbrev chain_of : Option (List Made) → List Made → Option DefaultChain
chain_of none made = none
chain_of (some members) made = some (record {
  members = kinds members;
  destroyed = release_all members made;
  refresh_time_in_milliseconds = default_refresh_ms;
})

abbrev pub made_of : Kind → Option Provider → List Made
made_of kind none = []
made_of kind (some provider) = record { kind = kind; provider = provider } ∷ []

-- aws_credentials_provider_new_chain_default, with what the functions that make the three providers
-- return; `providers[index]` is set for the last one, and `index` is left as it is
unfoldable pub new_chain_default :
    Option Provider → Option Provider → Option Provider → Option DefaultChain
new_chain_default none profile_provider imds_provider = none
new_chain_default (some environment_provider) profile_provider none = none
new_chain_default (some environment_provider) profile_provider (some imds_provider) =
    let before =
      made_of environment (some environment_provider) ++ made_of profile profile_provider in
    let index = length before in
    let providers = before ++ made_of imds (some imds_provider) in
    chain_of (new_chain index providers) providers

-- Whatever the profile provider, the default chain that is made from new providers has the
-- environment and the profile as members, but not the instance metadata service: that provider is made
-- and at once destroyed.
pub new_chain_default-imds :
    (environment_provider imds_provider : Provider) (profile_provider : Option Provider)
    → environment_provider.ref_count ≡ 1
    → imds_provider.ref_count ≡ 1
    → ((p : Provider) → profile_provider ≡ some p → p.ref_count ≡ 1)
    → new_chain_default (some environment_provider) profile_provider (some imds_provider)
      ≡ some (record {
        members = environment ∷ kinds (made_of profile profile_provider);
        destroyed = imds ∷ [];
        refresh_time_in_milliseconds = default_refresh_ms;
      })
unfolding new_chain_default new_chain take kinds release_all acquired provider_release
    provider_acquire
new_chain_default-imds e i none he hi hp = ground (arith, he, hi)
new_chain_default-imds e i (some p) he hi hp = ground (arith, he, hi, hp p refl)
