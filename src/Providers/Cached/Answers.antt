-- ===== src/Providers/Cached/Answers.antt =====
-- When the clients of the caching provider get their answers.
use aws_c_auth.Common.{
  ℕ, suc, ◌<◌, Bool, true, false, List, [], ◌∷◌, ◌++◌, append_assoc, append-nil, Option, ltb,
  if◌then◌else◌, ◌≡◌, refl, sym, ap, ◌∙◌, arith, Bool-cases, inl, inr,
}
use aws_c_auth.Signing.State.{Credentials}
use aws_c_auth.Providers.Lifetime.{ShutdownOptions, credentials_new_copy}
use aws_c_auth.Providers.Cached.{
  CachedProvider, Query, is_empty, uint64_max, time_of, refresh_time,
  get_credentials_async_callback, new_cached,
}
use aws_c_auth.Providers.Cached.World.{
  World, asks, answers, Step, ask, refuse, answer, Reach, here, next, begin, count, told,
  asks-cached, asks-queued, answers_lem,
}
use aws_c_auth.Providers.Cached.Accounting.{Reach-IsAccounted, is_empty-snoc, answers-IsAccounted}

-- The source has a query exactly while some wait.
abbrev IsServed : World → Type 0
IsServed w = w.in_flight ≡ (if is_empty w.provider.pending_queries then 0 else 1)

asks-IsServed :
    (w : World) (clock : Option ℕ) (q : Query) → IsServed w → IsServed (asks true w clock q)
asks-IsServed w clock q h = elim (Bool-cases (ltb (time_of clock) w.provider.next_refresh_time)) [
  | inl e ↦ rw (asks-cached true w clock q e) h
  | inr e ↦
      rw (asks-queued true w clock q e)
        (ground (arith, h, is_empty-snoc w.provider.pending_queries q))
]

answers-IsServed :
    (w : World) (n : ℕ) (clock : Option ℕ) (cr : Option Credentials)
    → w.in_flight ≡ suc n
    → IsServed w
    → IsServed (answers w n clock cr)
unfolding get_credentials_async_callback
answers-IsServed w n clock cr e h = rw (answers_lem w n clock cr) (ground (arith, h, e))

Step-IsServed : {w w' : World} → Step false w w' → IsServed w → IsServed w'
Step-IsServed (ask w clock q) h = asks-IsServed w clock q h
Step-IsServed (refuse w clock q e) h = cc e
Step-IsServed (answer w n clock cr e) h = answers-IsServed w n clock cr e h

Reach-IsServed :
    (p : CachedProvider) (w : World) → p.pending_queries ≡ [] → Reach false (begin p) w → IsServed w
Reach-IsServed p w e here = rw e refl
Reach-IsServed p w e (next {t} reach step) = Step-IsServed step (Reach-IsServed p t e reach)

answers-pending :
    (w : World) (n : ℕ) (clock : Option ℕ) (cr : Option Credentials)
    → (answers w n clock cr).provider.pending_queries ≡ []
unfolding get_credentials_async_callback
answers-pending w n clock cr = rw (answers_lem w n clock cr) refl

-- After any history in which the source takes every query: whenever queries wait, the source has one
-- to answer, and once it answers, with credentials or without, each query that was ever made has been
-- called back as often as it was made.
pub Reach-answered :
    (to_ns : ℕ → ℕ) (ms : ℕ) (shutdown : ShutdownOptions) (w : World) (clock : Option ℕ)
    (credentials : Option Credentials)
    → Reach false (begin (new_cached to_ns ms shutdown)) w
    → is_empty w.provider.pending_queries ≡ false
    → (n : ℕ) × (w.in_flight ≡ suc n)
      × ((q : Query)
          → told q (answers w n clock credentials).notified
            ≡ count q (answers w n clock credentials).asked)
unfolding new_cached
Reach-answered to_ns ms shutdown w clock cr reach waits =
    let flying : w.in_flight ≡ suc 0 =
      Reach-IsServed (new_cached to_ns ms shutdown) w refl reach ∙ rw waits refl in
    let account =
      answers-IsAccounted 1 w 0 clock cr flying
        (Reach-IsAccounted to_ns ms shutdown false w reach) in
    (0, flying, λ q. omega (arith, account.once q, ap (count q) (answers-pending w 0 clock cr)))

-- A world in which these queries wait, and the source has none.
record IsStuck (waiting : List Query) (w : World) : Type 0 where
  idle : w.in_flight ≡ 0
  more : List Query
  waits : w.provider.pending_queries ≡ waiting ++ more

is_empty-append : (xs ys : List Query) → is_empty xs ≡ false → is_empty (xs ++ ys) ≡ false
is_empty-append [] ys e = cc e
is_empty-append (x ∷ xs) ys e = refl

asks-IsStuck :
    (waiting : List Query) (accepts : Bool) (w : World) (clock : Option ℕ) (q : Query)
    → is_empty waiting ≡ false
    → IsStuck waiting w
    → IsStuck waiting (asks accepts w clock q)
asks-IsStuck waiting accepts w clock q e h =
    elim (Bool-cases (ltb (time_of clock) w.provider.next_refresh_time)) [
      | inl now ↦
          rw (asks-cached accepts w clock q now)
            (record { idle = h.idle; more = h.more; waits = h.waits })
      | inr late ↦ rw (asks-queued accepts w clock q late) (record {
        idle = rw (ap is_empty h.waits ∙ is_empty-append waiting h.more e) h.idle;
        more = h.more ++ q ∷ [];
        waits = ap (λ l. l ++ q ∷ []) h.waits ∙ append_assoc waiting h.more (q ∷ []);
      })
    ]

Step-IsStuck :
    {r : Bool} {waiting : List Query} {w w' : World}
    → Step r w w'
    → is_empty waiting ≡ false
    → IsStuck waiting w
    → IsStuck waiting w'
Step-IsStuck {r} {waiting} (ask w clock q) e h = asks-IsStuck waiting true w clock q e h
Step-IsStuck {r} {waiting} (refuse w clock q f) e h = asks-IsStuck waiting false w clock q e h
Step-IsStuck {r} {waiting} (answer w n clock cr f) e h = cc (h.idle, f)

Reach-IsStuck :
    (r : Bool) (w w' : World)
    → w.in_flight ≡ 0
    → is_empty w.provider.pending_queries ≡ false
    → Reach r w w'
    → IsStuck w.provider.pending_queries w'
Reach-IsStuck r w w' idle e here = record {
  idle = idle;
  more = [];
  waits = sym (append-nil w.provider.pending_queries);
}
Reach-IsStuck r w w' idle e (next {t} reach step) =
    Step-IsStuck step e (Reach-IsStuck r w t idle e reach)

-- If the cache of a provider is out of date, no query waits and the source has none, and the source
-- refuses what a client's query makes the provider submit, then the query waits for good: its
-- callback is not made in that call, and whatever happens after, the source has no query, so that there
-- is no answer, and the query stays the first in the list.
pub refused-waits :
    (r : Bool) (w w' : World) (clock : Option ℕ) (q : Query)
    → w.in_flight ≡ 0
    → w.provider.pending_queries ≡ []
    → ltb (time_of clock) w.provider.next_refresh_time ≡ false
    → Reach r (asks false w clock q) w'
    → ((asks false w clock q).notified ≡ w.notified)
      × (w'.in_flight ≡ 0)
      × (more : List Query) × (w'.provider.pending_queries ≡ q ∷ more)
refused-waits r w w' clock q idle none_waits late reach =
    let queued = asks-queued false w clock q late in
    let refused = asks false w clock q in
    let first : refused.provider.pending_queries ≡ q ∷ [] =
      ap (λ x. x.provider.pending_queries) queued ∙ rw none_waits refl in
    let quiet : refused.in_flight ≡ 0 =
      ap (λ x. x.in_flight) queued ∙ rw none_waits (omega (arith, idle)) in
    let stuck = Reach-IsStuck r refused w' quiet (ap is_empty first) reach in
    (
      ap (λ x. x.notified) queued,
      stuck.idle,
      stuck.more,
      stuck.waits ∙ ap (λ l. l ++ stuck.more) first,
    )

answers-refresh :
    (w : World) (n : ℕ) (clock : Option ℕ) (cr : Option Credentials)
    → w.provider.refresh_interval_in_ns ≡ 0
    → ((answers w n clock cr).provider.next_refresh_time ≡ uint64_max)
      × ((answers w n clock cr).provider.cached_credentials ≡ credentials_new_copy cr)
unfolding refresh_time get_credentials_async_callback
answers-refresh w n clock cr e = rw (answers_lem w n clock cr) (ground (arith, e), refl)

-- With no refresh interval, the first answer of the source is kept for good: every query of a later
-- client, at any time below the greatest one, gets it at once, also where it is a failure, and the
-- source is not asked again.
pub answers-kept :
    (w : World) (n : ℕ) (clock clock' : Option ℕ) (credentials : Option Credentials) (q : Query)
    → w.provider.refresh_interval_in_ns ≡ 0
    → time_of clock' < uint64_max
    → (let w' = answers w n clock credentials in
        asks true w' clock' q ≡ record w' {
          asked = w'.asked ++ q ∷ [];
          notified =
              w'.notified ++ (q, credentials_new_copy (credentials_new_copy credentials)) ∷ [];
        })
answers-kept w n clock clock' cr q e h =
    let w' = answers w n clock cr in
    let kept = answers-refresh w n clock cr e in
    asks-cached true w' clock' q (ground (arith, kept.0, h))
    ∙ ap
        (λ c. record w' {
          asked = w'.asked ++ q ∷ [];
          notified = w'.notified ++ (q, credentials_new_copy c) ∷ [];
        })
        kept.1
