-- ===== src/Common/Sort.antt =====
-- qsort of the C library, as a sort by insertion: an element stays behind those that the comparator
-- calls equal to it.
pub mod Laws
use Prim.Native.Nat.{Ordering}
use mathlib.Core.List.{List, [], ◌∷◌}

module _ {ℓ} {A : Type ℓ} where
  unfoldable pub insert_sorted : (A → A → Ordering) → A → List A → List A
  insert_sorted cmp x [] = x ∷ []
  insert_sorted cmp x (y ∷ ys) = elim (cmp x y) [
    | Ordering.gt ↦ y ∷ insert_sorted cmp x ys
    | _ ↦ x ∷ y ∷ ys
  ]

  unfoldable pub qsort : (A → A → Ordering) → List A → List A
  unfolding insert_sorted
  qsort cmp [] = []
  qsort cmp (x ∷ xs) = insert_sorted cmp x (qsort cmp xs)
