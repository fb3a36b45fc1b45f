-- ===== src/Common/Sort/Laws.antt =====
-- The outcome of the sort has the elements of its input, in the order of the comparator.
use Prim.Native.Nat.{Ordering}
use mathlib.Core.Path.{◌≡◌, refl}
use mathlib.Core.Logic.{◌≢◌, ◌⊎◌, inl, inr}
use mathlib.Core.List.{List, [], ◌∷◌, Perm}
use mathlib.Core.List.Perm
use aws_c_auth.Common.Sort.{insert_sorted, qsort}

-- Each element stands in the relation to the one behind it.
abbrev pub Chain {ℓ} : {A : Type ℓ} → (A → A → Type 0) → List A → Type 0
Chain R [] = Unit
Chain R (x ∷ []) = Unit
Chain R (x ∷ y ∷ xs) = R x y × Chain R (y ∷ xs)

pub Ordering-cases : (o : Ordering) → (o ≡ Ordering.gt) ⊎ ((o ≡ Ordering.lt) ⊎ (o ≡ Ordering.eq))
Ordering-cases Ordering.lt = inr (inl refl)
Ordering-cases Ordering.eq = inr (inr refl)
Ordering-cases Ordering.gt = inl refl

-- A sort puts its elements in the order of any relation that the comparator decides.
module _ {A : Type 0} (cmp : A → A → Ordering) (R : A → A → Type 0)
    (not_greater : (x y : A) → cmp x y ≢ Ordering.gt → R x y)
    (greater : (x y : A) → cmp x y ≡ Ordering.gt → R y x) where
  behind-Chain :
      (z x : A) (ys : List A) → R z x → Chain R (z ∷ ys) → Chain R (z ∷ insert_sorted cmp x ys)
  unfolding insert_sorted
  behind-Chain z x [] h hs = (h, tt)
  behind-Chain z x (y ∷ ys) h hs = elim (Ordering-cases (cmp x y)) [
    | inl e ↦ rw (insert_sorted, e) (hs.0, behind-Chain y x ys (greater x y e) hs.1)
    | inr (inl e) ↦ rw (insert_sorted, e) (h, (not_greater x y (λ q. cc (q, e)), hs.1))
    | inr (inr e) ↦ rw (insert_sorted, e) (h, (not_greater x y (λ q. cc (q, e)), hs.1))
  ]

  insert-Chain : (x : A) (ys : List A) → Chain R ys → Chain R (insert_sorted cmp x ys)
  unfolding insert_sorted
  insert-Chain x [] hs = tt
  insert-Chain x (y ∷ ys) hs = elim (Ordering-cases (cmp x y)) [
    | inl e ↦ rw (insert_sorted, e) (behind-Chain y x ys (greater x y e) hs)
    | inr (inl e) ↦ rw (insert_sorted, e) (not_greater x y (λ q. cc (q, e)), hs)
    | inr (inr e) ↦ rw (insert_sorted, e) (not_greater x y (λ q. cc (q, e)), hs)
  ]

  pub qsort-Chain : (xs : List A) → Chain R (qsort cmp xs)
  unfolding qsort
  qsort-Chain [] = tt
  qsort-Chain (x ∷ xs) = insert-Chain x (qsort cmp xs) (qsort-Chain xs)

module _ {A : Type 0} (cmp : A → A → Ordering) where
  Perm-insert : (x : A) (ys : List A) → Perm (x ∷ ys) (insert_sorted cmp x ys)
  unfolding insert_sorted
  Perm-insert x [] = Perm.refl (x ∷ [])
  Perm-insert x (y ∷ ys) = elim (Ordering-cases (cmp x y)) [
    | inl e ↦ rw (insert_sorted, e) (Perm.trans (Perm.swap y x ys) (Perm.cons y (Perm-insert x ys)))
    | inr (inl e) ↦ rw (insert_sorted, e) (Perm.refl (x ∷ y ∷ ys))
    | inr (inr e) ↦ rw (insert_sorted, e) (Perm.refl (x ∷ y ∷ ys))
  ]

  pub Perm-qsort : (xs : List A) → Perm xs (qsort cmp xs)
  unfolding qsort
  Perm-qsort [] = Perm.refl []
  Perm-qsort (x ∷ xs) = Perm.trans (Perm.cons x (Perm-qsort xs)) (Perm-insert x (qsort cmp xs))
