-- ===== src/Prelude/Counts.antt =====
-- How often a value stands in a selected, sorted and shortened list.
use Prim.Native.Nat.{ℕ, zero, suc, ◌≤◌}
use mathlib.Core.Path.{◌≡◌, refl}
use mathlib.Core.Logic.{inl, inr}
use mathlib.Core.Bool.{Bool}
use mathlib.Core.List.{List, [], ◌∷◌}
use native.Mathlib.Omega.{arith}
use remy_cc.Prelude.Tests.{Bool-cases}
use remy_cc.Prelude.Lists.{take}
use remy_cc.Prelude.Rows.{count_if, select_if}
use remy_cc.Prelude.Sorting.{insert_by, order_by}

module _ {ℓ} {A : Type ℓ} (p : A → Bool) where
  pub count_if-take : (n : ℕ) (xs : List A) → count_if p (take n xs) ≤ count_if p xs
  unfolding count_if
  count_if-take zero xs = omega arith
  count_if-take (suc n) [] = omega arith
  count_if-take (suc n) (x ∷ xs) = omega (arith, count_if-take n xs)

  pub count_if-select_if :
      (q : A → Bool) (xs : List A) → count_if p (select_if q xs) ≤ count_if p xs
  unfolding count_if select_if
  count_if-select_if q [] = omega arith
  count_if-select_if q (x ∷ xs) = elim (Bool-cases (q x)) [
    | inl t ↦ rw t (omega (arith, count_if-select_if q xs))
    | inr f ↦ rw f (omega (arith, count_if-select_if q xs))
  ]

  count_if-insert_by :
      (before : A → A → Bool) (x : A) (ys : List A)
      → count_if p (insert_by before x ys) ≡ count_if p (x ∷ ys)
  unfolding count_if insert_by
  count_if-insert_by before x [] = refl
  count_if-insert_by before x (y ∷ ys) = elim (Bool-cases (before y x)) [
    | inl t ↦ rw t (omega (arith, count_if-insert_by before x ys))
    | inr f ↦ rw f refl
  ]

  pub count_if-order_by :
      (before : A → A → Bool) (xs : List A) → count_if p (order_by before xs) ≡ count_if p xs
  unfolding count_if order_by
  count_if-order_by before [] = refl
  count_if-order_by before (x ∷ xs) =
      omega (arith, count_if-insert_by before x (order_by before xs), count_if-order_by before xs)
