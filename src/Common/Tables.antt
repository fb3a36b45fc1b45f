-- ===== src/Common/Tables.antt =====
-- Hash tables with byte string keys, as association lists in which a key stands once.
-- The modelled code looks keys up, puts, removes, counts, and runs through all entries.
use mathlib.Core.Path.{◌≡◌, refl}
use mathlib.Core.Option.{Option, none, some}
use mathlib.Core.List.{List, [], ◌∷◌}
use native.Mathlib.Omega.{arith}
use aws_c_auth.Common.Tests.{if◌then◌else◌}
use aws_c_auth.Common.ByteStrings.{Bytes, bytes_eq, bytes_eq_iff}

abbrev pub Table {ℓ} : Type ℓ → Type ℓ
Table V = List (Bytes × V)

module _ {ℓ} {V : Type ℓ} where
  unfoldable pub find : Bytes → Table V → Option V
  find k [] = none
  find k ((j, v) ∷ t) = if bytes_eq j k then some v else find k t

  unfoldable pub put : Bytes → V → Table V → Table V
  put k v [] = (k, v) ∷ []
  put k v ((j, w) ∷ t) = if bytes_eq j k then (k, v) ∷ t else (j, w) ∷ put k v t

  unfoldable pub remove : Bytes → Table V → Table V
  remove k [] = []
  remove k ((j, w) ∷ t) = let rest = remove k t in if bytes_eq j k then rest else (j, w) ∷ rest

  pub find-put :
      (k j : Bytes) (v : V) (t : Table V)
      → find j (put k v t) ≡ (if bytes_eq k j then some v else find j t)
  unfolding find put
  find-put k j v [] = refl
  find-put k j v ((i, w) ∷ t) =
      ground (arith, bytes_eq_iff k j, bytes_eq_iff i k, bytes_eq_iff i j, find-put k j v t)

  pub find-remove :
      (k j : Bytes) (t : Table V) → find j (remove k t) ≡ (if bytes_eq k j then none else find j t)
  unfolding find remove
  find-remove k j [] = ground arith
  find-remove k j ((i, w) ∷ t) =
      ground (arith, bytes_eq_iff k j, bytes_eq_iff i k, bytes_eq_iff i j, find-remove k j t)
