-- ===== src/Providers/Tests/Handover.antt =====
-- A run of providers over a source: a cache over a token service over a cache, as each of them shuts down.
use aws_c_auth.Common.{ℕ, ◌+◌, List, [], ◌∷◌, ◌++◌, Option, none, some, length, ◌≡◌, refl, arith}
use aws_c_auth.Providers.Handover.{Store, invoke}
use aws_c_auth.Providers.Handover.Tower.{client_of, all_made, ended, tower, tower-shutdown}

-- a source with a callback of its own
abbrev one_source : Store
one_source = record {
  next = 1;
  at = λ address. record { shutdown_options = client_of (some 5); source_shutdown_options = none };
}

abbrev clients : List (Option ℕ)
clients = some 6 ∷ none ∷ some 7 ∷ []

tower-shutdown_example :
    (let t = tower 0 clients one_source in
      invoke (length clients + 1) t (t.at 0).shutdown_options
      ≡ some (all_made (some 5 ∷ clients) ++ ended 1 (length clients)))
tower-shutdown_example = tower-shutdown clients 0 (some 5) one_source (omega arith) refl
