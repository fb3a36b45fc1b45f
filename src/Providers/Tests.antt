-- ===== src/Providers/Tests.antt =====
-- Runs of the caching provider and of chains.
pub mod Sources
pub mod Services
pub mod Responses
pub mod Handover
use aws_c_auth.Common.{
  ℕ, zero, suc, ◌+◌, ◌<◌, Bool, true, false, List, [], ◌∷◌, ◌++◌, Option, none, some, ltb, map,
  codes, length, ◌==◌, if◌then◌else◌, ◌≡◌, refl, arith,
}
use aws_c_auth.Signing.State.{Credentials}
use aws_c_auth.Providers.Lifetime.{
  Provider, ShutdownOptions, no_shutdown, provider_init_base, provider_acquire, credentials_new,
  credentials_new_copy,
}
use aws_c_auth.Providers.Cached.{
  CachedProvider, Query, time_of, uint64_max, is_empty, get_credentials_async, new_cached,
}
use aws_c_auth.Providers.Cached.World.{
  World, perform, asks, answers, Step, ask, Reach, here, next, begin, count, told,
}
use aws_c_auth.Providers.Cached.Accounting.{IsAccounted, Reach-IsAccounted}
use aws_c_auth.Providers.Cached.Answers.{Reach-answered, refused-waits, answers-kept}
use aws_c_auth.Providers.Chain.{Member, calls_back, refuses, chain_get_credentials_async}
use aws_c_auth.Providers.Chain.First.{first_answer, chain_get_credentials_async-first}
use aws_c_auth.Providers.Chain.Default.{
  environment, profile, imds, kinds, made_of, default_refresh_ms, new_chain_default,
  new_chain_default-imds,
}
use aws_c_auth.Providers.Chain.Redirect.{
  redirected_options, new_chain_impl, shut_down_each, shut_down_each-callbacks,
}
use aws_c_auth.Providers.Chain.Shutdown.{
  ChainShutdown, complete_all, callback_list, originals, complete_all-callbacks,
}

abbrev keys : Credentials
keys = credentials_new (codes "AKID") (codes "secret") none

abbrev fresh : World
fresh = begin (new_cached (λ ms. ms) 0 no_shutdown)

abbrev one_waits : World
one_waits = asks true fresh (some 5) 1

abbrev two_wait : World
two_wait = asks true one_waits (some 6) 2

two_ask : Reach false fresh two_wait
two_ask = next (next here (ask fresh (some 5) 1)) (ask one_waits (some 6) 2)

two_pending : is_empty two_wait.provider.pending_queries ≡ false
unfolding asks get_credentials_async perform new_cached
two_pending = refl

Reach-IsAccounted_example : IsAccounted 1 two_wait
Reach-IsAccounted_example = Reach-IsAccounted (λ ms. ms) 0 no_shutdown false two_wait two_ask

answered_example :
    (n : ℕ) × (two_wait.in_flight ≡ suc n)
    × ((q : Query)
        → told q (answers two_wait n (some 9) (some keys)).notified
          ≡ count q (answers two_wait n (some 9) (some keys)).asked)
answered_example =
    Reach-answered (λ ms. ms) 0 no_shutdown two_wait (some 9) (some keys) two_ask two_pending

abbrev refused_one : World
refused_one = asks false fresh (some 5) 1

fresh_late : ltb (time_of (some 5)) fresh.provider.next_refresh_time ≡ false
unfolding new_cached
fresh_late = ground arith

abbrev refused_two : World
refused_two = asks true refused_one (some 6) 2

fresh_none : fresh.provider.pending_queries ≡ []
unfolding new_cached
fresh_none = refl

refused_waits_example :
    (refused_one.notified ≡ fresh.notified)
    × (refused_two.in_flight ≡ 0)
    × (more : List Query) × (refused_two.provider.pending_queries ≡ 1 ∷ more)
refused_waits_example =
    refused-waits true fresh refused_two (some 5) 1 refl fresh_none fresh_late
      (next here (ask refused_one (some 6) 2))

abbrev members : List Member
members = calls_back (some keys) ∷ refuses ∷ []

first_example :
    chain_get_credentials_async (calls_back none ∷ members) 1
    ≡ first_answer (calls_back none ∷ members) 1
first_example = chain_get_credentials_async-first (calls_back none) members 1

base_count : provider_init_base.ref_count ≡ 1
unfolding provider_init_base
base_count = refl

default_chain_example :
    new_chain_default (some provider_init_base) (some provider_init_base) (some provider_init_base)
    ≡ some (record {
      members = environment ∷ kinds (made_of profile (some provider_init_base));
      destroyed = imds ∷ [];
      refresh_time_in_milliseconds = default_refresh_ms;
    })
default_chain_example =
    new_chain_default-imds provider_init_base provider_init_base (some provider_init_base)
      base_count base_count (λ p e. cc (e, base_count))

abbrev calling : ℕ → ShutdownOptions
calling callback = record { shutdown_callback = some callback }

abbrev options_at : ℕ → ShutdownOptions
options_at address = if address == 2 then calling 4 else no_shutdown

shut_down_each_example :
    (let after =
        shut_down_each
          (redirected_options options_at (1 ∷ 2 ∷ []))
          (new_chain_impl (calling 9) (1 ∷ 2 ∷ []))
          (2 ∷ 1 ∷ []) in
      (after.is_released ≡ true)
      × (after.callbacks ≡ originals (map options_at (2 ∷ 1 ∷ [])) ++ (9 ∷ [])))
shut_down_each_example =
    shut_down_each-callbacks (calling 9) options_at (1 ∷ 2 ∷ []) (2 ∷ 1 ∷ []) refl (omega arith)
      (omega arith)
