-- ===== src/Prelude/Lists.antt =====
-- Lists under native lengths, and membership.
use Prim.Native.Nat.{ℕ, zero, suc, ◌+◌, ◌≤◌}
use mathlib.Core.Path.{◌≡◌, refl}
use mathlib.Core.Logic.{◌⊎◌, inl, inr}
use mathlib.Core.List.{List, [], ◌∷◌, ◌++◌, Memᴰ}
use mathlib.Core.List.Memᴰ
use native.Mathlib.Omega.{arith}

module _ {ℓ} {A : Type ℓ} where
  abbrev pub length : List A → ℕ
  length [] = 0
  length (x ∷ xs) = suc (length xs)

  abbrev pub take : ℕ → List A → List A
  take zero xs = []
  take (suc n) [] = []
  take (suc n) (x ∷ xs) = x ∷ take n xs

  pub length-append : (xs ys : List A) → length (xs ++ ys) ≡ length xs + length ys
  length-append [] ys = omega arith
  length-append (x ∷ xs) ys = omega (arith, length-append xs ys)

  pub length-take : (n : ℕ) (xs : List A) → length (take n xs) ≤ n
  length-take zero xs = omega arith
  length-take (suc n) [] = omega arith
  length-take (suc n) (x ∷ xs) = omega (arith, length-take n xs)

  pub mem-take : (n : ℕ) (xs : List A) {a : A} → Memᴰ a (take n xs) → Memᴰ a xs
  mem-take zero xs m = absurd (Memᴰ.not-nil m)
  mem-take (suc n) [] m = m
  mem-take (suc n) (x ∷ xs) m = elim (Memᴰ.cases_cons m) [
    | inl e ↦ Memᴰ.head e
    | inr m' ↦ Memᴰ.tail (mem-take n xs m')
  ]

  pub not-mem-nil : {a : A} → ¬ Memᴰ a []
  not-mem-nil = Memᴰ.not-nil

  -- A member of `x ∷ xs` is its head or a member of its tail.
  pub mem-cons_cases : {a x : A} {xs : List A} → Memᴰ a (x ∷ xs) → (a ≡ x) ⊎ Memᴰ a xs
  mem-cons_cases = Memᴰ.cases_cons

  pub mem-append_cases :
      {a : A} (xs : List A) {ys : List A} → Memᴰ a (xs ++ ys) → Memᴰ a xs ⊎ Memᴰ a ys
  mem-append_cases xs m = Memᴰ.append_cases xs m

  pub mem-append_left : {a : A} {xs : List A} (ys : List A) → Memᴰ a xs → Memᴰ a (xs ++ ys)
  mem-append_left ys m = Memᴰ.append_left ys m

  pub mem-append_right : {a : A} (xs : List A) {ys : List A} → Memᴰ a ys → Memᴰ a (xs ++ ys)
  mem-append_right xs m = Memᴰ.append_right xs m

  pub mem-append_last : {a : A} (xs : List A) → Memᴰ a (xs ++ a ∷ [])
  mem-append_last xs = Memᴰ.append_right xs (Memᴰ.head refl)

  pub eq_of_mem_singleton : {a x : A} → Memᴰ a (x ∷ []) → a ≡ x
  eq_of_mem_singleton m = Memᴰ.eq_of_singleton m
