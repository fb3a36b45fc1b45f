-- ===== src/Providers/Chain/Redirect.antt =====
-- The making of a chain of source/credentials_provider_chain.c, as far as the shutdown callbacks of its
-- sub providers go. The sub providers are shared objects, so they have addresses, and one may be given
-- twice.
use aws_c_auth.Common.{
  ℕ, ◌+◌, ◌≤◌, ◌<◌, Bool, true, false, ◌&&◌, ◌||◌, List, [], ◌∷◌, ◌++◌, map, length, length-map,
  ◌==◌, if◌then◌else◌, ◌≡◌, refl, sym, ap, ◌∙◌, arith, Bool-cases, inl, inr,
}
use aws_c_auth.Providers.Lifetime.{ShutdownOptions, provider_init_base}
use aws_c_auth.Providers.Chain.Shutdown.{
  ChainShutdown, on_sub_provider_shutdown_completed, complete_all, complete_all-callbacks,
  callback_list, originals,
}

-- struct aws_credentials_provider_chain_shutdown_callback_record, less the chain itself
pub record CallbackRecord : Type 0 where
  pub original_provider : ℕ
  pub original_shutdown_options : ShutdownOptions

-- The shutdown options of a sub provider: its own, or s_on_sub_provider_shutdown_completed with a record.
-- The records stay as they are, so a pointer to one is its value.
pub data SubShutdown : Type 0 where
  own_options : ShutdownOptions → SubShutdown
  redirected : CallbackRecord → SubShutdown

-- the first loop of aws_credentials_provider_new_chain
unfoldable pub save_originals : (ℕ → ShutdownOptions) → List ℕ → List CallbackRecord
save_originals options [] = []
save_originals options (sub_provider ∷ rest) =
    record { original_provider = sub_provider; original_shutdown_options = options sub_provider }
    ∷ save_originals options rest

-- the second loop
unfoldable pub redirect_all : List CallbackRecord → (ℕ → SubShutdown) → ℕ → SubShutdown
redirect_all [] at = at
redirect_all (shutdown_callback_record ∷ rest) at = redirect_all rest (λ address.
    if address == shutdown_callback_record.original_provider
    then redirected shutdown_callback_record
    else at address)

-- the options of the providers behind aws_credentials_provider_new_chain
abbrev pub redirected_options : (ℕ → ShutdownOptions) → List ℕ → ℕ → SubShutdown
redirected_options options providers =
    redirect_all (save_originals options providers) (λ address. own_options (options address))

-- and the chain itself
unfoldable pub new_chain_impl : ShutdownOptions → List ℕ → ChainShutdown
new_chain_impl shutdown_options providers = record {
  chain = record provider_init_base { shutdown_options = shutdown_options };
  provider_count = length providers;
  shutdown_count = 0;
  callbacks = [];
  is_released = false;
}

-- the end of a provider: what the chain sees of it
unfoldable pub sub_provider_shutdown : ChainShutdown → SubShutdown → ChainShutdown
sub_provider_shutdown impl (own_options _) = impl
sub_provider_shutdown impl (redirected shutdown_callback_record) =
    on_sub_provider_shutdown_completed impl shutdown_callback_record.original_shutdown_options

unfoldable pub shut_down_each : (ℕ → SubShutdown) → ChainShutdown → List ℕ → ChainShutdown
shut_down_each at impl [] = impl
shut_down_each at impl (sub_provider ∷ rest) =
    shut_down_each at (sub_provider_shutdown impl (at sub_provider)) rest

-- Whether a provider is among those given, and whether all of some are.
abbrev pub is_given : List ℕ → ℕ → Bool
is_given [] p = false
is_given (q ∷ qs) p = (p == q) || is_given qs p

abbrev pub are_given : List ℕ → List ℕ → Bool
are_given providers [] = true
are_given providers (p ∷ ps) = is_given providers p && are_given providers ps

redirect_all-other :
    (options : ℕ → ShutdownOptions) (providers : List ℕ) (at : ℕ → SubShutdown) (p : ℕ)
    → is_given providers p ≡ false
    → redirect_all (save_originals options providers) at p ≡ at p
unfolding redirect_all save_originals
redirect_all-other options [] at p e = refl
redirect_all-other options (q ∷ qs) at p e =
    let other : (p == q) ≡ false = ground (arith, e) in
    let rest : is_given qs p ≡ false = ground (arith, e) in
    redirect_all-other options qs _ p rest ∙ rw other refl

-- a provider that is given gets the callback of the chain with its own options
redirect_all-given :
    (options : ℕ → ShutdownOptions) (providers : List ℕ) (at : ℕ → SubShutdown) (p : ℕ)
    → is_given providers p ≡ true
    → redirect_all (save_originals options providers) at p
      ≡ redirected (record { original_provider = p; original_shutdown_options = options p })
unfolding redirect_all save_originals
redirect_all-given options [] at p e = ground (arith, e)
redirect_all-given options (q ∷ qs) at p e = elim (Bool-cases (is_given qs p)) [
  | inl rest ↦ redirect_all-given options qs _ p rest
  | inr rest ↦
      let here : (p == q) ≡ true = ground (arith, e, rest) in
      let same : p ≡ q = ground (arith, here) in
      redirect_all-other options qs _ p rest
      ∙ (rw here refl
          ∙ ap
              (λ x.
                redirected
                  (record { original_provider = x; original_shutdown_options = options x }))
              (sym same))
]

shut_down_each-complete_all :
    (options : ℕ → ShutdownOptions) (providers order : List ℕ) (impl : ChainShutdown)
    → are_given providers order ≡ true
    → shut_down_each (redirected_options options providers) impl order
      ≡ complete_all impl (map options order)
unfolding shut_down_each complete_all sub_provider_shutdown
shut_down_each-complete_all options providers [] impl e = refl
shut_down_each-complete_all options providers (p ∷ ps) impl e =
    let here : is_given providers p ≡ true = ground (arith, e) in
    let rest : are_given providers ps ≡ true = ground (arith, e) in
    rw (redirect_all-given options providers (λ address. own_options (options address)) p here)
      (shut_down_each-complete_all options providers ps _ rest)

-- A chain is made of one provider or more, and then of these some shut down, one after the other, not more than the
-- chain was given. Each of their own shutdown callbacks is made in turn, though the chain has put its callback
-- in their place; if there are as many as the chain was given, then the chain's own callback is made last and
-- its memory is released, and neither is so if there are fewer.
pub shut_down_each-callbacks :
    (shutdown_options : ShutdownOptions) (options : ℕ → ShutdownOptions) (providers order : List ℕ)
    → are_given providers order ≡ true
    → 0 < length providers
    → length order ≤ length providers
    → (let last = length order == length providers in
        let after =
          shut_down_each
            (redirected_options options providers)
            (new_chain_impl shutdown_options providers)
            order in
        (after.is_released ≡ last)
        × (after.callbacks
            ≡ originals (map options order)
              ++ (if last then callback_list shutdown_options.shutdown_callback else [])))
unfolding new_chain_impl
shut_down_each-callbacks shutdown_options options providers order e h k =
    let impl = new_chain_impl shutdown_options providers in
    let same : 0 + length (map options order) ≡ length order =
      omega (arith, length-map options order) in
    rw (shut_down_each-complete_all options providers order impl e)
      (rw⁻¹ same (complete_all-callbacks impl (map options order) refl h (omega (arith, k, same))))
