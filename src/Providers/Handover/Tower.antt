-- ===== src/Providers/Handover/Tower.antt =====
-- The shutdown of a tower of providers, each over the one before: source/credentials_provider_cached.c and
-- source/credentials_provider_sts.c.
use native.Mathlib.Numerals.{add-one}
use aws_c_auth.Common.{
  ℕ, zero, suc, ◌+◌, ◌<◌, List, [], ◌∷◌, ◌++◌, append-nil, append_assoc, Option, none, some, length,
  ◌≡◌, ◌≢◌, refl, sym, ap, ◌∙◌, arith,
}
use aws_c_auth.Providers.Handover.{
  ShutdownCallback, client, source_shutdown, Store, hand_over, invoke, ShutdownEffect, notified,
  released,
}

abbrev pub client_of : Option ℕ → Option ShutdownCallback
client_of none = none
client_of (some n) = some (client n)

abbrev pub made : Option ℕ → List ShutdownEffect
made none = []
made (some n) = notified n ∷ []

abbrev pub all_made : List (Option ℕ) → List ShutdownEffect
all_made [] = []
all_made (o ∷ os) = made o ++ all_made os

-- As many providers from an address on, the last of them first.
abbrev pub ended : ℕ → ℕ → List ShutdownEffect
ended address zero = []
ended address (suc count) = ended (address + 1) count ++ released address ∷ []

-- One provider after the other, each over the one before, with the callbacks that their clients give.
unfoldable pub tower : ℕ → List (Option ℕ) → Store → Store
tower source [] store = store
tower source (own ∷ owns) store = tower store.next owns (hand_over source (client_of own) store)

hand_over-other :
    (source j : ℕ) (own : Option ShutdownCallback) (s : Store)
    → j ≢ source
    → j < s.next
    → (hand_over source own s).at j ≡ s.at j
unfolding hand_over
hand_over-other source j own s other less = ground (arith, other, less)

hand_over-new :
    (source : ℕ) (own : Option ShutdownCallback) (s : Store)
    → (hand_over source own s).at s.next
      ≡ record { shutdown_options = own; source_shutdown_options = (s.at source).shutdown_options }
unfolding hand_over
hand_over-new source own s = ground arith

hand_over-source :
    (source : ℕ) (own : Option ShutdownCallback) (s : Store)
    → source < s.next
    → ((hand_over source own s).at source).shutdown_options ≡ some (source_shutdown s.next)
unfolding hand_over
hand_over-source source own s less = ground (arith, less)

hand_over-next :
    (source : ℕ) (own : Option ShutdownCallback) (s : Store) {j : ℕ}
    → j < s.next
    → j < (hand_over source own s).next
unfolding hand_over
hand_over-next source own s less = omega (arith, less)

next-fresh :
    (source : ℕ) (own : Option ShutdownCallback) (s : Store)
    → s.next < (hand_over source own s).next
unfolding hand_over
next-fresh source own s = omega arith

hand_over-saved :
    (source : ℕ) (own : Option ShutdownCallback) (s : Store)
    → source < s.next
    → ((hand_over source own s).at source).source_shutdown_options
      ≡ (s.at source).source_shutdown_options
unfolding hand_over
hand_over-saved source own s less = ground (arith, less)

tower-other :
    (owns : List (Option ℕ)) (source j : ℕ) (s : Store)
    → j ≢ source
    → j < s.next
    → (tower source owns s).at j ≡ s.at j
unfolding tower
tower-other [] source j s other less = refl
tower-other (own ∷ owns) source j s other less =
    tower-other owns s.next j (hand_over source (client_of own) s) (omega (arith, less))
      (hand_over-next source (client_of own) s less)
    ∙ hand_over-other source j (client_of own) s other less

-- the callback that a provider took over stays as it is
tower-saved :
    (owns : List (Option ℕ)) (source : ℕ) (s : Store)
    → source < s.next
    → ((tower source owns s).at source).source_shutdown_options
      ≡ (s.at source).source_shutdown_options
unfolding tower
tower-saved [] source s less = refl
tower-saved (own ∷ owns) source s less =
    ap (λ x. x.source_shutdown_options)
      (tower-other owns s.next source (hand_over source (client_of own) s) (omega (arith, less))
        (hand_over-next source (client_of own) s less))
    ∙ hand_over-saved source (client_of own) s less

invoke-client :
    (fuel : ℕ) (s : Store) (o : Option ℕ) → invoke (suc fuel) s (client_of o) ≡ some (made o)
unfolding invoke
invoke-client fuel s none = refl
invoke-client fuel s (some n) = refl

invoke-source :
    (fuel : ℕ) (s : Store) (p : ℕ) {before own : List ShutdownEffect}
    → invoke fuel s (s.at p).source_shutdown_options ≡ some before
    → invoke fuel s (s.at p).shutdown_options ≡ some own
    → invoke (suc fuel) s (some (source_shutdown p)) ≡ some (before ++ (own ++ released p ∷ []))
unfolding invoke
invoke-source fuel s p before own = rw (before, own) refl

-- Where a provider has a client's callback, and others are made, each over the one before, then as the first
-- shuts down the callbacks of all clients are made, from the first to the last, and then the memory of the
-- providers over it ends, from the last to the first: one more call in each other than there are such
-- providers is enough.
pub tower-shutdown :
    (owns : List (Option ℕ)) (source : ℕ) (own : Option ℕ) (s : Store)
    → source < s.next
    → (s.at source).shutdown_options ≡ client_of own
    → (let t = tower source owns s in
        invoke (length owns + 1) t (t.at source).shutdown_options
        ≡ some (all_made (own ∷ owns) ++ ended s.next (length owns)))
unfolding tower hand_over
tower-shutdown [] source own s less e = rw (e, add-one) (invoke-client _ s own ∙ simp append-nil)
tower-shutdown (o ∷ owns) source own s less e =
    let s' = hand_over source (client_of o) s in
    let t = tower s.next owns s' in
    let fresh = next-fresh source (client_of o) s in
    let new = hand_over-new source (client_of o) s in
    let callback : (t.at source).shutdown_options ≡ some (source_shutdown s.next) =
      ap (λ x. x.shutdown_options)
        (tower-other owns s.next source s' (omega (arith, less))
          (hand_over-next source (client_of o) s less))
      ∙ hand_over-source source (client_of o) s less in
    let saved : (t.at s.next).source_shutdown_options ≡ client_of own =
      tower-saved owns s.next s' fresh ∙ (ap (λ x. x.source_shutdown_options) new ∙ e) in
    let rest = tower-shutdown owns s.next o s' fresh (ap (λ x. x.shutdown_options) new) in
    rw (callback, add-one (suc (length owns)))
      (invoke-source (suc (length owns)) t s.next
          (ap (invoke _ t) saved ∙ invoke-client (length owns) t own)
          (ap (λ k. invoke k t (t.at s.next).shutdown_options) (sym (add-one (length owns))) ∙ rest)
        ∙ ap some (simp append_assoc))
