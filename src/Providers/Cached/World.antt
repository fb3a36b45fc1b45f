-- ===== src/Providers/Cached/World.antt =====
-- The caching provider among its clients and its source: each step is a call of the provider, with
-- what it makes happen.
use aws_c_auth.Common.{
  ℕ, suc, ◌+◌, Bool, true, false, List, [], ◌∷◌, ◌++◌, Option, ltb, length, append-nil,
  append_assoc, ◌==◌, if◌then◌else◌, ◌≡◌, refl, sym, ap, ◌∙◌, arith, Bool-cases, inl, inr,
}
use aws_c_auth.Signing.State.{Credentials}
use aws_c_auth.Providers.Lifetime.{
  Provider, provider_acquire, provider_release, credentials_new_copy,
}
use aws_c_auth.Providers.Cached.{
  CachedProvider, Query, Effect, notify, submit, is_empty, time_of, get_credentials_async,
  query_list_notify_and_clean_up, get_credentials_async_callback,
}

-- The provider, the queries that its source has taken and not answered, the queries that clients made,
-- and the callbacks that they got, oldest first.
pub record World : Type 0 where
  pub provider : CachedProvider
  pub in_flight : ℕ
  pub asked : List Query
  pub notified : List (Query × Option Credentials)

-- The effects of a call; the source takes a query or refuses it, which the provider does not see.
unfoldable pub perform : Bool → World → List Effect → World
perform accepts w [] = w
perform accepts w (notify query credentials ∷ effects) =
    perform accepts (record w { notified = w.notified ++ (query, credentials) ∷ [] }) effects
perform accepts w (submit ∷ effects) =
    perform accepts (record w { in_flight = w.in_flight + (if accepts then 1 else 0) }) effects

unfoldable pub asks : Bool → World → Option ℕ → Query → World
asks accepts w clock query =
    let (provider, effects) = get_credentials_async w.provider clock query in
    perform accepts (record w { provider = provider; asked = w.asked ++ query ∷ [] }) effects

-- an answer of the source, which takes a query out of flight
unfoldable pub answers : World → ℕ → Option ℕ → Option Credentials → World
answers w in_flight clock credentials =
    let (provider, effects) = get_credentials_async_callback w.provider clock credentials in
    perform true (record w { provider = provider; in_flight = in_flight }) effects

-- A client asks, the source refuses what is submitted to it (where that may happen), or it answers.
pub data Step (may_refuse : Bool) : World → World → Type 0 where
  ask : (w : World) (clock : Option ℕ) (query : Query) → Step may_refuse w (asks true w clock query)
  refuse :
      (w : World) (clock : Option ℕ) (query : Query)
      → may_refuse ≡ true
      → Step may_refuse w (asks false w clock query)
  answer :
      (w : World) (n : ℕ) (clock : Option ℕ) (credentials : Option Credentials)
      → w.in_flight ≡ suc n
      → Step may_refuse w (answers w n clock credentials)

pub data Reach (may_refuse : Bool) (s : World) : World → Type 0 where
  here : Reach may_refuse s s
  next : {t u : World} → Reach may_refuse s t → Step may_refuse t u → Reach may_refuse s u

abbrev pub begin : CachedProvider → World
begin provider = record { provider = provider; in_flight = 0; asked = []; notified = [] }

-- How often a query was made, and how often it got its callback.
abbrev pub count : Query → List Query → ℕ
count q [] = 0
count q (p ∷ ps) = (if p == q then 1 else 0) + count q ps

abbrev pub told : Query → List (Query × Option Credentials) → ℕ
told q [] = 0
told q ((p, _) ∷ ps) = (if p == q then 1 else 0) + told q ps

pub count-append : (q : Query) (xs ys : List Query) → count q (xs ++ ys) ≡ count q xs + count q ys
count-append q [] ys = omega arith
count-append q (x ∷ xs) ys = omega (arith, count-append q xs ys)

pub told-append :
    (q : Query) (xs ys : List (Query × Option Credentials))
    → told q (xs ++ ys) ≡ told q xs + told q ys
told-append q [] ys = omega arith
told-append q ((x, _) ∷ xs) ys = omega (arith, told-append q xs ys)

-- Notifying a list of queries: what the world becomes.
abbrev pub told_all : List Query → Option Credentials → List (Query × Option Credentials)
told_all [] credentials = []
told_all (q ∷ qs) credentials = (q, credentials) ∷ told_all qs credentials

pub told-told_all :
    (q : Query) (qs : List Query) (cr : Option Credentials) → told q (told_all qs cr) ≡ count q qs
told-told_all q [] cr = refl
told-told_all q (p ∷ qs) cr = ground (arith, told-told_all q qs cr)

effects_of : List Query → Option Credentials → List Effect
effects_of [] credentials = []
effects_of (q ∷ qs) credentials = notify q credentials ∷ effects_of qs credentials

perform-effects_of :
    (accepts : Bool) (w : World) (qs : List Query) (cr : Option Credentials)
    → perform accepts w (effects_of qs cr) ≡ record w { notified = w.notified ++ told_all qs cr }
unfolding perform effects_of
perform-effects_of accepts w [] cr =
    ap (λ l. record w { notified = l }) (sym (append-nil w.notified))
perform-effects_of accepts w (q ∷ qs) cr =
    perform-effects_of accepts (record w { notified = w.notified ++ (q, cr) ∷ [] }) qs cr
    ∙ ap (λ l. record w { notified = l }) (append_assoc w.notified ((q, cr) ∷ []) (told_all qs cr))

notify-effects :
    (qs : List Query) (cr : Option Credentials) (base : Provider)
    → (query_list_notify_and_clean_up qs cr base).1 ≡ effects_of qs cr
unfolding query_list_notify_and_clean_up effects_of
notify-effects [] cr base = refl
notify-effects (q ∷ qs) cr base =
    ap (λ l. notify q cr ∷ l) (notify-effects qs cr (provider_release base).0)

pub notify-ref_count :
    (qs : List Query) (cr : Option Credentials) (base : Provider) (n : ℕ)
    → base.ref_count ≡ n + length qs
    → (query_list_notify_and_clean_up qs cr base).0.ref_count ≡ n
unfolding query_list_notify_and_clean_up provider_release
notify-ref_count [] cr base n h = omega arith
notify-ref_count (q ∷ qs) cr base n h =
    notify-ref_count qs cr (provider_release base).0 n (omega arith)

-- A query that comes before the refresh time is answered from the cache at once.
pub asks-cached :
    (accepts : Bool) (w : World) (clock : Option ℕ) (q : Query)
    → ltb (time_of clock) w.provider.next_refresh_time ≡ true
    → asks accepts w clock q ≡ record w {
      asked = w.asked ++ q ∷ [];
      notified = w.notified ++ (q, credentials_new_copy w.provider.cached_credentials) ∷ [];
    }
unfolding asks get_credentials_async perform
asks-cached accepts w clock q e = rw e refl

-- A later one waits, and goes to the source if it is the first to wait.
pub asks-queued :
    (accepts : Bool) (w : World) (clock : Option ℕ) (q : Query)
    → ltb (time_of clock) w.provider.next_refresh_time ≡ false
    → asks accepts w clock q ≡ record w {
      provider = record w.provider {
        base = provider_acquire w.provider.base;
        pending_queries = w.provider.pending_queries ++ q ∷ [];
      };
      asked = w.asked ++ q ∷ [];
      in_flight =
          if is_empty w.provider.pending_queries
          then w.in_flight + (if accepts then 1 else 0)
          else w.in_flight;
    }
unfolding asks get_credentials_async perform
asks-queued accepts w clock q e = elim (Bool-cases (is_empty w.provider.pending_queries)) [
  | inl first ↦ rw (e, first) refl
  | inr later ↦ rw (e, later) refl
]

-- An answer of the source goes to all that wait.
pub answers_lem :
    (w : World) (n : ℕ) (clock : Option ℕ) (cr : Option Credentials)
    → answers w n clock cr ≡ record w {
      provider = (get_credentials_async_callback w.provider clock cr).0;
      in_flight = n;
      notified = w.notified ++ told_all w.provider.pending_queries (credentials_new_copy cr);
    }
unfolding answers get_credentials_async_callback
answers_lem w n clock cr =
    rw (notify-effects w.provider.pending_queries (credentials_new_copy cr) w.provider.base)
      (perform-effects_of true _ w.provider.pending_queries (credentials_new_copy cr))
