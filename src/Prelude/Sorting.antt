-- ===== src/Prelude/Sorting.antt =====
-- `ORDER BY` and `sort_by`: a stable sort by what comes before.
use Prim.Native.Nat.{ℕ, zero, suc}
use mathlib.Core.Path.{◌≡◌, refl, ap}
use mathlib.Core.Logic.{◌⊎◌, inl, inr}
use mathlib.Core.Bool.{Bool, true, false}
use mathlib.Core.List.{List, [], ◌∷◌, Memᴰ}
use remy_cc.Prelude.Tests.{if◌then◌else◌, Bool-cases}
use remy_cc.Prelude.Lists.{mem-cons_cases, not-mem-nil, take, mem-take, length}

-- An order in which "not before" is transitive.
pub record IsStrict {ℓ} {A : Type ℓ} (before : A → A → Bool) : Type ℓ where
  pub irrefl : (a : A) → before a a ≡ false
  pub asym : (a b : A) → before a b ≡ true → before b a ≡ false
  pub trans : (a b c : A) → before a b ≡ false → before b c ≡ false → before a c ≡ false

module _ {ℓ} {A : Type ℓ} where
  unfoldable pub insert_by : (A → A → Bool) → A → List A → List A
  insert_by before x [] = x ∷ []
  insert_by before x (y ∷ ys) =
      let rest = insert_by before x ys in if before y x then y ∷ rest else x ∷ y ∷ ys

  unfoldable pub order_by : (A → A → Bool) → List A → List A
  unfolding insert_by
  order_by before [] = []
  order_by before (x ∷ xs) = insert_by before x (order_by before xs)

  -- No element comes before an earlier one.
  abbrev pub IsSorted : (A → A → Bool) → List A → Type ℓ
  IsSorted before [] = Unit {ℓ}
  IsSorted before (x ∷ xs) = ((y : A) → Memᴰ y xs → before y x ≡ false) × IsSorted before xs

  module _ (before : A → A → Bool) (strict : IsStrict before) where
    mem-insert_by :
        (x : A) (ys : List A) {z : A} → Memᴰ z (insert_by before x ys) → (z ≡ x) ⊎ Memᴰ z ys
    unfolding insert_by
    mem-insert_by x [] m = mem-cons_cases m
    mem-insert_by x (y ∷ ys) m = elim (Bool-cases (before y x)) [
      | inl t ↦ elim (mem-cons_cases (rw (t, insert_by) at m)) [
        | inl e ↦ inr (Memᴰ.head e)
        | inr m' ↦ elim (mem-insert_by x ys m') [ inl e ↦ inl e | inr k ↦ inr (Memᴰ.tail k) ]
      ]
      | inr f ↦ mem-cons_cases (rw (f, insert_by) at m)
    ]

    insert_by-mem :
        (x : A) (ys : List A) {z : A} → (z ≡ x) ⊎ Memᴰ z ys → Memᴰ z (insert_by before x ys)
    unfolding insert_by
    insert_by-mem x [] (inl e) = Memᴰ.head e
    insert_by-mem x [] (inr m) = Memᴰ.tail m
    insert_by-mem x (y ∷ ys) h = elim (Bool-cases (before y x)) [
      | inl t ↦ rw t (elim h [
        | inl e ↦ Memᴰ.tail (insert_by-mem x ys (inl e))
        | inr m ↦ elim (mem-cons_cases m) [
          | inl e ↦ Memᴰ.head e
          | inr m' ↦ Memᴰ.tail (insert_by-mem x ys (inr m'))
        ]
      ])
      | inr f ↦ rw f (elim h [ inl e ↦ Memᴰ.head e | inr m ↦ Memᴰ.tail m ])
    ]

    insert_by-IsSorted :
        (x : A) (ys : List A) → IsSorted before ys → IsSorted before (insert_by before x ys)
    unfolding insert_by
    insert_by-IsSorted x [] h = (λ y m. absurd (not-mem-nil m), tt)
    insert_by-IsSorted x (y ∷ ys) (first, rest) = elim (Bool-cases (before y x)) [
      | inl t ↦ rw t (
        λ z m. elim (mem-insert_by x ys m) [
          | inl e ↦ rw e (strict.asym y x t)
          | inr m' ↦ first z m'
        ],
        insert_by-IsSorted x ys rest,
      )
      | inr f ↦ rw f (
        λ z m. elim (mem-cons_cases m) [
          | inl e ↦ rw e f
          | inr m' ↦ strict.trans z y x (first z m') f
        ],
        (first, rest),
      )
    ]

    pub order_by-IsSorted : (xs : List A) → IsSorted before (order_by before xs)
    unfolding order_by
    order_by-IsSorted [] = tt
    order_by-IsSorted (x ∷ xs) = insert_by-IsSorted x _ (order_by-IsSorted xs)

    pub mem-order_by : (xs : List A) {z : A} → Memᴰ z (order_by before xs) → Memᴰ z xs
    unfolding order_by
    mem-order_by [] m = m
    mem-order_by (x ∷ xs) m = elim (mem-insert_by x _ m) [
      | inl e ↦ Memᴰ.head e
      | inr m' ↦ Memᴰ.tail (mem-order_by xs m')
    ]

    pub order_by-mem : (xs : List A) {z : A} → Memᴰ z xs → Memᴰ z (order_by before xs)
    unfolding order_by
    order_by-mem [] m = m
    order_by-mem (x ∷ xs) m =
        insert_by-mem x _
          (elim (mem-cons_cases m) [ inl e ↦ inl e | inr m' ↦ inr (order_by-mem xs m') ])

    pub take-IsSorted : (n : ℕ) (xs : List A) → IsSorted before xs → IsSorted before (take n xs)
    take-IsSorted zero xs h = tt
    take-IsSorted (suc n) [] h = tt
    take-IsSorted (suc n) (x ∷ xs) (first, rest) =
        (λ y m. first y (mem-take n xs m), take-IsSorted n xs rest)

    -- What is cut off comes before nothing that is kept, and only a full list cuts off.
    pub take-first :
        (n : ℕ) (xs : List A)
        → IsSorted before xs
        → (z : A) → Memᴰ z xs
        → Memᴰ z (take n xs)
          ⊎ ((length (take n xs) ≡ n) × ((y : A) → Memᴰ y (take n xs) → before z y ≡ false))
    take-first zero xs h z m = inr (refl, λ y my. absurd (not-mem-nil my))
    take-first (suc n) [] h z m = inl m
    take-first (suc n) (x ∷ xs) (first, rest) z m = elim (mem-cons_cases m) [
      | inl e ↦ inl (Memᴰ.head e)
      | inr m' ↦ elim (take-first n xs rest z m') [
        | inl k ↦ inl (Memᴰ.tail k)
        | inr (full, late) ↦ inr (
          ap suc full,
          λ y my. elim (mem-cons_cases my) [ inl e ↦ rw e (first z m') | inr k ↦ late y k ],
        )
      ]
    ]
