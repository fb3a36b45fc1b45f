-- ===== src/Providers/Cached/Accounting.antt =====
-- What holds of the caching provider after every history of calls.
use aws_c_auth.Common.{
  ℕ, suc, ◌+◌, ◌≤◌, Bool, true, false, List, [], ◌∷◌, ◌++◌, Option, ltb, length, length-append,
  if◌then◌else◌, ◌≡◌, refl, arith, Bool-cases, inl, inr,
}
use aws_c_auth.Signing.State.{Credentials}
use aws_c_auth.Providers.Lifetime.{
  ShutdownOptions, provider_acquire, provider_init_base, credentials_new_copy,
}
use aws_c_auth.Providers.Cached.{
  Query, is_empty, time_of, get_credentials_async_callback, new_cached,
}
use aws_c_auth.Providers.Cached.World.{
  World, asks, answers, Step, ask, refuse, answer, Reach, here, next, begin, count, told, told_all,
  count-append, told-append, told-told_all, notify-ref_count, asks-cached, asks-queued, answers_lem,
}

-- Every query is called back once or still waits, each waiting query holds one reference to the
-- provider, and at most one query is with the source, none if none waits.
pub record IsAccounted (references : ℕ) (w : World) : Type 0 where
  pub once : (q : Query) → count q w.asked ≡ told q w.notified + count q w.provider.pending_queries
  pub referenced : w.provider.base.ref_count ≡ references + length w.provider.pending_queries
  pub single : w.in_flight ≤ (if is_empty w.provider.pending_queries then 0 else 1)

pub is_empty-snoc : (qs : List Query) (q : Query) → is_empty (qs ++ q ∷ []) ≡ false
is_empty-snoc [] q = refl
is_empty-snoc (p ∷ qs) q = refl

asks-IsAccounted :
    (references : ℕ) (accepts : Bool) (w : World) (clock : Option ℕ) (q : Query)
    → IsAccounted references w
    → IsAccounted references (asks accepts w clock q)
unfolding provider_acquire
asks-IsAccounted references accepts w clock q h =
    elim (Bool-cases (ltb (time_of clock) w.provider.next_refresh_time)) [
      | inl e ↦ rw (asks-cached accepts w clock q e) (record {
        once = λ p. omega (
          arith,
          h.once p,
          count-append p w.asked (q ∷ []),
          told-append p w.notified ((q, credentials_new_copy w.provider.cached_credentials) ∷ []),
        );
        referenced = h.referenced;
        single = h.single;
      })
      | inr e ↦ rw (asks-queued accepts w clock q e) (record {
        once = λ p. omega (
          arith,
          h.once p,
          count-append p w.asked (q ∷ []),
          count-append p w.provider.pending_queries (q ∷ []),
        );
        referenced = omega (arith, h.referenced, length-append w.provider.pending_queries (q ∷ []));
        single = ground (arith, h.single, is_empty-snoc w.provider.pending_queries q);
      })
    ]

pub answers-IsAccounted :
    (references : ℕ) (w : World) (n : ℕ) (clock : Option ℕ) (cr : Option Credentials)
    → w.in_flight ≡ suc n
    → IsAccounted references w
    → IsAccounted references (answers w n clock cr)
unfolding get_credentials_async_callback
answers-IsAccounted references w n clock cr flying h =
    let qs = w.provider.pending_queries in
    rw (answers_lem w n clock cr) (record {
      once = λ p. omega (
        arith,
        h.once p,
        told-append p w.notified (told_all qs (credentials_new_copy cr)),
        told-told_all p qs (credentials_new_copy cr),
      );
      referenced = omega (
        arith,
        notify-ref_count qs (credentials_new_copy cr) w.provider.base references h.referenced,
      );
      single = ground (arith, h.single, flying);
    })

-- A step of any kind keeps the account.
pub Step-IsAccounted :
    {r : Bool} {references : ℕ} {w w' : World}
    → Step r w w'
    → IsAccounted references w
    → IsAccounted references w'
Step-IsAccounted {r} {references} (ask w clock q) h = asks-IsAccounted references true w clock q h
Step-IsAccounted {r} {references} (refuse w clock q e) h =
    asks-IsAccounted references false w clock q h
Step-IsAccounted {r} {references} (answer w n clock cr e) h =
    answers-IsAccounted references w n clock cr e h

-- After any history of a caching provider that begins with one reference, every query was called back
-- exactly as often as it was made, less the times that it still waits; the provider has one
-- reference more than queries that wait; and at most one query is with the source, and none if
-- none waits.
pub Reach-IsAccounted :
    (to_ns : ℕ → ℕ) (ms : ℕ) (shutdown : ShutdownOptions) (r : Bool) (w : World)
    → Reach r (begin (new_cached to_ns ms shutdown)) w
    → IsAccounted 1 w
unfolding new_cached provider_init_base
Reach-IsAccounted to_ns ms shutdown r w here = record {
  once = λ q. omega arith;
  referenced = omega arith;
  single = omega arith;
}
Reach-IsAccounted to_ns ms shutdown r w (next {t} reach step) =
    Step-IsAccounted step (Reach-IsAccounted to_ns ms shutdown r t reach)
