-- ===== src/Providers/Cached.antt =====
-- The caching provider, source/credentials_provider_cached.c. A call under the lock is one step. The
-- clock is an argument, `none` where it fails; times are 64 bit numbers.
pub mod World
pub mod Accounting
pub mod Answers
use aws_c_auth.Common.{
  ℕ, ◌+◌, ◌-◌, ◌*◌, ◌%◌, ◌<◌, Bool, true, false, List, [], ◌∷◌, ◌++◌, Option, none, some, ltb,
  length, if◌then◌else◌,
}
use aws_c_auth.Signing.State.{Credentials}
use aws_c_auth.Providers.Lifetime.{
  Provider, ShutdownOptions, provider_init_base, provider_acquire, provider_release,
  credentials_new_copy,
}

-- struct aws_credentials_query: the callback and its user data, as a number
abbrev pub Query : Type 0
Query = ℕ

-- struct aws_credentials_provider_cached, with the base of the provider
pub record CachedProvider : Type 0 where
  pub base : Provider
  pub cached_credentials : Option Credentials
  pub refresh_interval_in_ns : ℕ
  pub next_refresh_time : ℕ
  pub pending_queries : List Query

-- What a call makes happen: a callback, or a query to the source.
pub data Effect : Type 0 where
  notify : Query → Option Credentials → Effect
  submit : Effect

-- UINT64_MAX
abbrev pub uint64_max : ℕ
uint64_max = 18446744073709551615

abbrev pub is_empty {ℓ} : {A : Type ℓ} → List A → Bool
is_empty [] = true
is_empty (_ ∷ _) = false

-- a clock that fails leaves the time at 0
abbrev pub time_of : Option ℕ → ℕ
time_of none = 0
time_of (some now) = now

-- s_cached_credentials_provider_get_credentials_async
unfoldable pub get_credentials_async :
    CachedProvider → Option ℕ → Query → CachedProvider × List Effect
get_credentials_async impl clock query =
    if ltb (time_of clock) impl.next_refresh_time
    then (impl, notify query (credentials_new_copy impl.cached_credentials) ∷ [])
    else (
      record impl {
        base = provider_acquire impl.base;
        pending_queries = impl.pending_queries ++ query ∷ [];
      },
      if is_empty impl.pending_queries then submit ∷ [] else [],
    )

-- s_aws_credentials_query_list_notify_and_clean_up: each callback, and the release of the query's
-- reference to the provider
unfoldable pub query_list_notify_and_clean_up :
    List Query → Option Credentials → Provider → Provider × List Effect
query_list_notify_and_clean_up [] credentials base = (base, [])
query_list_notify_and_clean_up (query ∷ queries) credentials base =
    let (base', effects) =
      query_list_notify_and_clean_up queries credentials (provider_release base).0 in
    (base', notify query credentials ∷ effects)

-- the next refresh time, which stays as it is where the clock fails
unfoldable pub refresh_time : ℕ → Option ℕ → ℕ → ℕ
refresh_time interval clock old =
    if ltb 0 interval
    then elim clock [ none ↦ old | some now ↦ (now + interval) % (uint64_max + 1) ]
    else uint64_max

-- s_cached_credentials_provider_get_credentials_async_callback
unfoldable pub get_credentials_async_callback :
    CachedProvider → Option ℕ → Option Credentials → CachedProvider × List Effect
get_credentials_async_callback impl clock credentials =
    let cached = credentials_new_copy credentials in
    let (base, effects) = query_list_notify_and_clean_up impl.pending_queries cached impl.base in
    (
      record impl {
        base = base;
        cached_credentials = cached;
        next_refresh_time = refresh_time impl.refresh_interval_in_ns clock impl.next_refresh_time;
        pending_queries = [];
      },
      effects,
    )

-- aws_credentials_provider_new_cached; `to_ns` is aws_timestamp_convert from milliseconds to
-- nanoseconds
unfoldable pub new_cached : (ℕ → ℕ) → ℕ → ShutdownOptions → CachedProvider
new_cached to_ns refresh_time_in_milliseconds shutdown_options = record {
  base = record provider_init_base { shutdown_options = shutdown_options };
  cached_credentials = none;
  refresh_interval_in_ns =
      if ltb 0 refresh_time_in_milliseconds then to_ns refresh_time_in_milliseconds else 0;
  next_refresh_time = 0;
  pending_queries = [];
}
