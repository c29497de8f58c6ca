-- ===== src/Prelude/Anys.antt =====
-- When some element passes a test.
use mathlib.Core.Path.{◌≡◌, refl, subst}
use mathlib.Core.Logic.{◌↔◌, ◌⊎◌, inl, inr}
use mathlib.Core.Bool.{Bool, true, false, ◌||◌}
use mathlib.Core.List.{List, [], ◌∷◌, Memᴰ}
use mathlib.Core.List.Memᴰ
use remy_cc.Prelude.Lists.{mem-cons_cases}
use remy_cc.Prelude.Tests.{Bool-cases}
use remy_cc.Prelude.Rows.{any_if}

module _ {ℓ} {A : Type ℓ} where
  pub any_if_iff :
      (p : A → Bool) (xs : List A) → (any_if p xs ≡ true) ↔ ((x : A) × Memᴰ x xs × (p x ≡ true))
  unfolding any_if
  any_if_iff p [] = (λ h. cc h, λ (x, m, t). absurd (Memᴰ.not-nil m))
  any_if_iff p (x ∷ xs) = elim (Bool-cases (p x)) [
    | inl t ↦ rw t (λ h. (x, Memᴰ.head refl, t), λ h. refl)
    | inr f ↦ rw f (
      λ h. let (y, m, t) = (any_if_iff p xs).0 h in (y, Memᴰ.tail m, t),
      λ (y, m, t). elim (mem-cons_cases m) [
        | inl e ↦ cc (subst (λ z. p z ≡ true) e t)
        | inr m' ↦ (any_if_iff p xs).1 (y, m', t)
      ],
    )
  ]

pub or_iff : (a b : Bool) → ((a || b) ≡ true) ↔ ((a ≡ true) ⊎ (b ≡ true))
or_iff true b = (λ h. inl refl, λ h. refl)
or_iff false b = (λ h. inr h, λ h. elim h [ inl t ↦ cc t | inr t ↦ t ])
