-- ===== src/Providers/Handover.antt =====
-- Providers over a source: source/credentials_provider_cached.c and source/credentials_provider_sts.c
-- take the source's shutdown callback over, save it, and make it before their own. The source is a shared
-- object, so the providers are a store, and a callback's user data names one of them.
pub mod Tower
use aws_c_auth.Common.{
  ℕ, zero, suc, ◌+◌, List, [], ◌∷◌, ◌++◌, Option, none, some, ◌==◌, if◌then◌else◌,
}

-- A shutdown callback: a client's, or that of the provider over a source, with its user data.
pub data ShutdownCallback : Type 0 where
  client : ℕ → ShutdownCallback
  source_shutdown : ℕ → ShutdownCallback

-- a provider's own shutdown callback, and the one that it took over; `none` is NULL
pub record Shared : Type 0 where
  pub shutdown_options : Option ShutdownCallback
  pub source_shutdown_options : Option ShutdownCallback

-- the providers by their addresses, and the next address
pub record Store : Type 0 where
  pub next : ℕ
  pub at : ℕ → Shared

-- the end of aws_credentials_provider_new_cached and of aws_credentials_provider_new_sts: the source's
-- shutdown callback is saved and swapped with the provider's own
unfoldable pub hand_over : ℕ → Option ShutdownCallback → Store → Store
hand_over source shutdown_options store = record {
  next = store.next + 1;
  at = λ address.
      if address == store.next
      then record {
        shutdown_options = shutdown_options;
        source_shutdown_options = (store.at source).shutdown_options;
      }
      else if address == source
      then record (store.at source) { shutdown_options = some (source_shutdown store.next) }
      else store.at address;
}

-- What a shutdown makes happen: a client's callback, or the end of a provider's memory.
pub data ShutdownEffect : Type 0 where
  notified : ℕ → ShutdownEffect
  released : ℕ → ShutdownEffect

-- what happens in one part and then in the other
abbrev pub both :
    Option (List ShutdownEffect) → Option (List ShutdownEffect) → Option (List ShutdownEffect)
both (some first) (some second) = some (first ++ second)
both _ _ = none

-- What comes of a callback; `none` is more calls in each other than there is fuel. The last clause is
-- s_on_credentials_provider_shutdown: the callback that was taken over, the provider's own, and the end of
-- its memory.
unfoldable pub invoke : ℕ → Store → Option ShutdownCallback → Option (List ShutdownEffect)
invoke zero store callback = none
invoke (suc fuel) store none = some []
invoke (suc fuel) store (some (client n)) = some (notified n ∷ [])
invoke (suc fuel) store (some (source_shutdown provider)) =
    both (invoke fuel store (store.at provider).source_shutdown_options) (
      both (invoke fuel store (store.at provider).shutdown_options) (some (released provider ∷ [])))
