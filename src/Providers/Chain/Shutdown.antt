-- ===== src/Providers/Chain/Shutdown.antt =====
-- The shutdown of a chain: s_on_sub_provider_shutdown_completed of
-- source/credentials_provider_chain.c.
use aws_c_auth.Common.{
  ℕ, ◌+◌, ◌≤◌, ◌<◌, Bool, true, false, not, List, [], ◌∷◌, ◌++◌, append_assoc, append-nil, Option,
  none, some, length, ◌==◌, if◌then◌else◌, ◌≡◌, refl, sym, ◌∙◌, arith, Bool-cases, Option-cases,
  inl, inr,
}
use aws_c_auth.Providers.Lifetime.{Provider, ShutdownOptions, provider_invoke_shutdown_callback}

-- struct aws_credentials_provider_chain_impl, as far as its shutdown goes, with the callbacks that were
-- made and whether the chain's memory was released
pub record ChainShutdown : Type 0 where
  pub chain : Provider
  pub provider_count : ℕ
  pub shutdown_count : ℕ
  pub callbacks : List ℕ
  pub is_released : Bool

-- s_on_sub_provider_shutdown_completed; the record holds the sub provider's original options
unfoldable pub on_sub_provider_shutdown_completed : ChainShutdown → ShutdownOptions → ChainShutdown
on_sub_provider_shutdown_completed impl original =
    let original_callbacks =
      provider_invoke_shutdown_callback (record impl.chain { shutdown_options = original }) in
    let notified = record impl {
      callbacks = impl.callbacks ++ original_callbacks;
      shutdown_count = impl.shutdown_count + 1;
    } in
    if not (impl.shutdown_count + 1 == impl.provider_count) then notified else record notified {
      callbacks = notified.callbacks ++ provider_invoke_shutdown_callback impl.chain;
      is_released = true;
    }

unfoldable pub complete_all : ChainShutdown → List ShutdownOptions → ChainShutdown
complete_all impl [] = impl
complete_all impl (original ∷ rest) =
    complete_all (on_sub_provider_shutdown_completed impl original) rest

-- The callbacks that the sub providers had of their own, in the order in which they shut down.
abbrev pub callback_list : Option ℕ → List ℕ
callback_list none = []
callback_list (some callback) = callback ∷ []

abbrev pub originals : List ShutdownOptions → List ℕ
originals [] = []
originals (o ∷ os) = callback_list o.shutdown_callback ++ originals os

invoke_lem :
    (p : Provider)
    → provider_invoke_shutdown_callback p ≡ callback_list p.shutdown_options.shutdown_callback
unfolding provider_invoke_shutdown_callback
invoke_lem p = elim (Option-cases p.shutdown_options.shutdown_callback) [
  | inl e ↦ rw (provider_invoke_shutdown_callback, e) refl
  | inr (callback, e) ↦ rw (provider_invoke_shutdown_callback, e) refl
]

not_last :
    (impl : ChainShutdown) (o : ShutdownOptions)
    → impl.shutdown_count + 1 < impl.provider_count
    → on_sub_provider_shutdown_completed impl o ≡ record impl {
      callbacks = impl.callbacks ++ callback_list o.shutdown_callback;
      shutdown_count = impl.shutdown_count + 1;
    }
unfolding on_sub_provider_shutdown_completed
not_last impl o h =
    let e : (impl.shutdown_count + 1 == impl.provider_count) ≡ false = ground (arith, h) in
    simp (invoke_lem, e)

last :
    (impl : ChainShutdown) (o : ShutdownOptions)
    → impl.shutdown_count + 1 ≡ impl.provider_count
    → on_sub_provider_shutdown_completed impl o ≡ record impl {
      callbacks =
          (impl.callbacks ++ callback_list o.shutdown_callback)
          ++ callback_list impl.chain.shutdown_options.shutdown_callback;
      shutdown_count = impl.shutdown_count + 1;
      is_released = true;
    }
unfolding on_sub_provider_shutdown_completed
last impl o h =
    let e : (impl.shutdown_count + 1 == impl.provider_count) ≡ true = ground (arith, h) in
    simp (invoke_lem, e)

-- As the sub providers of a chain shut down one after the other, each of their own shutdown callbacks is
-- made in turn. The chain's own callback is made, and its memory released, with the last of them
-- and not before.
pub complete_all-callbacks :
    (impl : ChainShutdown) (done : List ShutdownOptions)
    → impl.is_released ≡ false
    → impl.shutdown_count < impl.provider_count
    → impl.shutdown_count + length done ≤ impl.provider_count
    → (let last = impl.shutdown_count + length done == impl.provider_count in
        let after = complete_all impl done in
        (after.is_released ≡ last)
        × (after.callbacks
            ≡ impl.callbacks
              ++ (originals done
                  ++ (if last
                      then callback_list impl.chain.shutdown_options.shutdown_callback
                      else []))))
unfolding complete_all
complete_all-callbacks impl [] r h k =
    let e : (impl.shutdown_count + 0 == impl.provider_count) ≡ false = ground (arith, h) in
    rw e (r, sym (append-nil impl.callbacks))
complete_all-callbacks impl (o ∷ []) r h k =
    elim (Bool-cases (impl.shutdown_count + 1 == impl.provider_count)) [
      | inl e ↦ rw (last impl o (ground (arith, e)), e) (refl, simp (append_assoc, append-nil))
      | inr e ↦ rw (not_last impl o (ground (arith, e, k)), e) (r, simp append-nil)
    ]
complete_all-callbacks impl (o ∷ o' ∷ done) r h k =
    let impl' : ChainShutdown = record impl {
      callbacks = impl.callbacks ++ callback_list o.shutdown_callback;
      shutdown_count = impl.shutdown_count + 1;
    } in
    let more : impl.shutdown_count + 1 < impl.provider_count = omega (arith, k) in
    let rest = complete_all-callbacks impl' (o' ∷ done) r more (omega (arith, k)) in
    let same : impl.shutdown_count + 1 + length (o' ∷ done)
        ≡ impl.shutdown_count + length (o ∷ o' ∷ done) =
      omega arith in
    rw (complete_all, not_last impl o more) (rw⁻¹ same (rest.0, rest.1 ∙ simp append_assoc))
