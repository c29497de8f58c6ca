-- ===== src/Prelude/Rows.antt =====
-- Tables as lists of rows: `SELECT`, `UPDATE … WHERE` and counting.
use Prim.Native.Nat.{ℕ, ◌+◌, ◌≤◌, ◌<◌}
use mathlib.Core.Path.{◌≡◌, refl, sym, subst}
use mathlib.Core.Logic.{◌↔◌, inl, inr}
use mathlib.Core.Bool.{Bool, true, false}
use mathlib.Core.Option
use mathlib.Core.Option.{Option, none, some}
use mathlib.Core.List.{List, [], ◌∷◌, ◌++◌, Memᴰ}
use mathlib.Core.List.Memᴰ
use native.Mathlib.Omega.{arith}
use remy_cc.Prelude.Tests.{if◌then◌else◌, Bool-cases}

module _ {ℓ} {A : Type ℓ} where
  -- The rows that satisfy a `WHERE` clause, counted.
  unfoldable pub count_if : (A → Bool) → List A → ℕ
  count_if p [] = 0
  count_if p (x ∷ xs) = (if p x then 1 else 0) + count_if p xs

  -- The rows that satisfy a `WHERE` clause, in table order.
  unfoldable pub select_if : (A → Bool) → List A → List A
  select_if p [] = []
  select_if p (x ∷ xs) = let rest = select_if p xs in if p x then x ∷ rest else rest

  -- The first such row: a `SELECT` of at most one row.
  unfoldable pub find_if : (A → Bool) → List A → Option A
  find_if p [] = none
  find_if p (x ∷ xs) = if p x then some x else find_if p xs

  -- `UPDATE … SET f WHERE p`.
  unfoldable pub update_if : (A → Bool) → (A → A) → List A → List A
  update_if p f [] = []
  update_if p f (x ∷ xs) = (if p x then f x else x) ∷ update_if p f xs

  unfoldable pub any_if : (A → Bool) → List A → Bool
  any_if p [] = false
  any_if p (x ∷ xs) = if p x then true else any_if p xs

module _ {ℓ} {A : Type ℓ} where
  pub mem-find_if :
      (p : A → Bool) (xs : List A) {a : A} → find_if p xs ≡ some a → Memᴰ a xs × (p a ≡ true)
  unfolding find_if
  mem-find_if p [] h = cc
  mem-find_if p (x ∷ xs) {a} h = elim (Bool-cases (p x)) [
    | inl t ↦ let e : x ≡ a = cc (rw t at h) in (Memᴰ.head (sym e), subst (λ z. p z ≡ true) e t)
    | inr f ↦ let (m, t) = mem-find_if p xs (rw f at h) in (Memᴰ.tail m, t)
  ]

  pub find_if-none :
      (p : A → Bool) (xs : List A) → find_if p xs ≡ none → (a : A) → Memᴰ a xs → p a ≡ false
  unfolding find_if
  find_if-none p [] h a m = absurd (Memᴰ.not-nil m)
  find_if-none p (x ∷ xs) h a m = elim (Bool-cases (p x)) [
    | inl t ↦ cc (rw t at h)
    | inr f ↦ elim (Memᴰ.cases_cons m) [
      | inl e ↦ subst (λ z. p z ≡ false) (sym e) f
      | inr m' ↦ find_if-none p xs (rw f at h) a m'
    ]
  ]

  pub find_if-some :
      (p : A → Bool) (xs : List A) {a : A}
      → Memᴰ a xs
      → p a ≡ true
      → (b : A) × (find_if p xs ≡ some b)
  unfolding find_if
  find_if-some p [] m h = absurd (Memᴰ.not-nil m)
  find_if-some p (x ∷ xs) m h = elim (Bool-cases (p x)) [
    | inl t ↦ (x, rw t)
    | inr f ↦ elim (Memᴰ.cases_cons m) [
      | inl e ↦ cc (subst (λ z. p z ≡ true) e h)
      | inr m' ↦ let (b, found) = find_if-some p xs m' h in (b, rw f found)
    ]
  ]

  -- Where a row of an updated table comes from.
  pub mem-update_if_cases :
      (p : A → Bool) (f : A → A) (xs : List A) {y : A}
      → Memᴰ y (update_if p f xs)
      → (x : A) × Memᴰ x xs × (y ≡ (if p x then f x else x))
  unfolding update_if
  mem-update_if_cases p f [] m = absurd (Memᴰ.not-nil m)
  mem-update_if_cases p f (x ∷ xs) m = elim (Memᴰ.cases_cons m) [
    | inl e ↦ (x, Memᴰ.head refl, e)
    | inr m' ↦ let (z, mz, e) = mem-update_if_cases p f xs m' in (z, Memᴰ.tail mz, e)
  ]

  pub mem-update_if :
      (p : A → Bool) (f : A → A) (xs : List A) {x : A}
      → Memᴰ x xs
      → Memᴰ (if p x then f x else x) (update_if p f xs)
  unfolding update_if
  mem-update_if p f [] m = absurd (Memᴰ.not-nil m)
  mem-update_if p f (x ∷ xs) m = elim (Memᴰ.cases_cons m) [
    | inl e ↦ Memᴰ.head (rw e)
    | inr m' ↦ Memᴰ.tail (mem-update_if p f xs m')
  ]

  pub find_if-update :
      (q p : A → Bool) (f : A → A)
      → ((x : A) → q (f x) ≡ q x)
      → (xs : List A)
      → find_if q (update_if p f xs) ≡ Option.map (λ x. if p x then f x else x) (find_if q xs)
  unfolding find_if update_if
  find_if-update q p f same [] = refl
  find_if-update q p f same (x ∷ xs) = ground (arith, same x, find_if-update q p f same xs)

  pub count_if-update :
      (q p : A → Bool) (f : A → A)
      → ((x : A) → q (f x) ≡ q x)
      → (xs : List A) → count_if q (update_if p f xs) ≡ count_if q xs
  unfolding count_if update_if
  count_if-update q p f same [] = refl
  count_if-update q p f same (x ∷ xs) = ground (arith, same x, count_if-update q p f same xs)

  pub count_if-append :
      (p : A → Bool) (xs ys : List A) → count_if p (xs ++ ys) ≡ count_if p xs + count_if p ys
  unfolding count_if
  count_if-append p [] ys = omega arith
  count_if-append p (x ∷ xs) ys = ground (arith, count_if-append p xs ys)

  pub count_if_pos :
      (p : A → Bool) (xs : List A) {a : A} → Memᴰ a xs → p a ≡ true → 0 < count_if p xs
  unfolding count_if
  count_if_pos p [] m h = absurd (Memᴰ.not-nil m)
  count_if_pos p (x ∷ xs) m h = elim (Memᴰ.cases_cons m) [
    | inl e ↦ let t : p x ≡ true = subst (λ z. p z ≡ true) e h in ground arith
    | inr m' ↦ ground (arith, count_if_pos p xs m' h)
  ]

  pub count_if_zero :
      (p : A → Bool) (xs : List A) → ((a : A) → Memᴰ a xs → p a ≡ false) → count_if p xs ≡ 0
  unfolding count_if
  count_if_zero p [] h = refl
  count_if_zero p (x ∷ xs) h =
      ground (arith, h x (Memᴰ.head refl), count_if_zero p xs (λ a m. h a (Memᴰ.tail m)))

  -- A value that at most one row has picks the row.
  pub unique_of_count :
      (p : A → Bool) (xs : List A) {a b : A}
      → count_if p xs ≤ 1
      → Memᴰ a xs
      → Memᴰ b xs
      → p a ≡ true
      → p b ≡ true
      → a ≡ b
  unfolding count_if
  unique_of_count p [] n ma mb ha hb = absurd (Memᴰ.not-nil ma)
  unique_of_count p (x ∷ xs) {a} {b} n ma mb ha hb = elim (Memᴰ.cases_cons ma) [
    | inl ea ↦ elim (Memᴰ.cases_cons mb) [
      | inl eb ↦ cc
      | inr mb' ↦
          let t : p x ≡ true = subst (λ z. p z ≡ true) ea ha in
          absurd (ground (arith, count_if_pos p xs mb' hb))
    ]
    | inr ma' ↦ elim (Memᴰ.cases_cons mb) [
      | inl eb ↦
          let t : p x ≡ true = subst (λ z. p z ≡ true) eb hb in
          absurd (ground (arith, count_if_pos p xs ma' ha))
      | inr mb' ↦ unique_of_count p xs (ground arith) ma' mb' ha hb
    ]
  ]

  pub mem-select_if :
      (p : A → Bool) (xs : List A) (a : A) → Memᴰ a (select_if p xs) ↔ (Memᴰ a xs × (p a ≡ true))
  unfolding select_if
  mem-select_if p [] a = (λ m. absurd (Memᴰ.not-nil m), λ h. absurd (Memᴰ.not-nil h.0))
  mem-select_if p (x ∷ xs) a =
      let ih = mem-select_if p xs a in
      elim (Bool-cases (p x)) [
        | inl t ↦ rw t (
          λ m. elim (Memᴰ.cases_cons m) [
            | inl e ↦ (Memᴰ.head e, rw e t)
            | inr m' ↦ (Memᴰ.tail (ih.0 m').0, (ih.0 m').1)
          ],
          λ h. elim (Memᴰ.cases_cons h.0) [
            | inl e ↦ Memᴰ.head e
            | inr m' ↦ Memᴰ.tail (ih.1 (m', h.1))
          ],
        )
        | inr f ↦ rw f (
          λ m. (Memᴰ.tail (ih.0 m).0, (ih.0 m).1),
          λ h. elim (Memᴰ.cases_cons h.0) [
            | inl e ↦ cc (subst (λ z. p z ≡ true) e h.1)
            | inr m' ↦ ih.1 (m', h.1)
          ],
        )
      ]

  pub find_if-append :
      (p : A → Bool) (xs ys : List A) {a : A}
      → find_if p xs ≡ some a
      → find_if p (xs ++ ys) ≡ some a
  unfolding find_if
  find_if-append p [] ys h = cc
  find_if-append p (x ∷ xs) ys h = elim (Bool-cases (p x)) [
    | inl t ↦ rw t (rw t at h)
    | inr f ↦ rw f (find_if-append p xs ys (rw f at h))
  ]

  pub find_if-append_last :
      (p : A → Bool) (xs : List A) (a : A)
      → find_if p xs ≡ none
      → p a ≡ true
      → find_if p (xs ++ a ∷ []) ≡ some a
  unfolding find_if
  find_if-append_last p [] a h t = rw t
  find_if-append_last p (x ∷ xs) a h t = elim (Bool-cases (p x)) [
    | inl e ↦ cc (rw e at h)
    | inr f ↦ rw f (find_if-append_last p xs a (rw f at h) t)
  ]

  pub any_if-false :
      (p : A → Bool) (xs : List A) → any_if p xs ≡ false → (a : A) → Memᴰ a xs → p a ≡ false
  unfolding any_if
  any_if-false p [] h a m = absurd (Memᴰ.not-nil m)
  any_if-false p (x ∷ xs) h a m = elim (Bool-cases (p x)) [
    | inl t ↦ cc (rw t at h)
    | inr f ↦ elim (Memᴰ.cases_cons m) [
      | inl e ↦ subst (λ z. p z ≡ false) (sym e) f
      | inr m' ↦ any_if-false p xs (rw f at h) a m'
    ]
  ]

  pub any_if-none :
      (p : A → Bool) (xs : List A) → ((a : A) → Memᴰ a xs → p a ≡ false) → any_if p xs ≡ false
  unfolding any_if
  any_if-none p [] h = refl
  any_if-none p (x ∷ xs) h = rw (h x (Memᴰ.head refl)) (any_if-none p xs (λ a m. h a (Memᴰ.tail m)))

  -- A stronger test counts no more rows.
  pub count_if-le :
      (p q : A → Bool) (xs : List A)
      → ((a : A) → p a ≡ true → q a ≡ true)
      → count_if p xs ≤ count_if q xs
  unfolding count_if
  count_if-le p q [] h = omega arith
  count_if-le p q (x ∷ xs) h = ground (arith, h x, count_if-le p q xs h)
