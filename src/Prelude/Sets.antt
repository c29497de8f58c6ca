-- ===== src/Prelude/Sets.antt =====
-- Rows that a query projects, joins, and sets of texts in the order of `String`.
use mathlib.Core.Path.{◌≡◌, refl, subst, ◌∙◌}
use mathlib.Core.Logic.{◌↔◌, ◌⊎◌, inl, inr}
use mathlib.Core.Bool.{Bool, true, false, ◌||◌, ◌&&◌}
use mathlib.Core.Option.{Option, none, some}
use mathlib.Core.List.{List, [], ◌∷◌, ◌++◌, Memᴰ}
use mathlib.Core.List.Memᴰ
use native.Mathlib.Omega.{arith}
use remy_cc.Prelude.Tests.{if◌then◌else◌, Bool-cases, Option-cases, ltb, ◌==◌}
use remy_cc.Prelude.Texts.{Text, text_eq, text_eq_iff}
use remy_cc.Prelude.Rows.{any_if}

unfoldable pub add_some {κ} : {B : Type κ} → Option B → List B → List B
add_some none ys = ys
add_some (some y) ys = y ∷ ys

module _ {ℓ κ} {A : Type ℓ} {B : Type κ} where
  -- `SELECT … FROM … WHERE …`: a value for each row that has one.
  unfoldable pub collect : (A → Option B) → List A → List B
  unfolding add_some
  collect f [] = []
  collect f (x ∷ xs) = add_some (f x) (collect f xs)

  -- The rows that each row is joined with.
  unfoldable pub join : (A → List B) → List A → List B
  join f [] = []
  join f (x ∷ xs) = f x ++ join f xs

  pub mem-collect :
      (f : A → Option B) (xs : List A) (b : B)
      → Memᴰ b (collect f xs) ↔ ((a : A) × Memᴰ a xs × (f a ≡ some b))
  unfolding collect
  mem-collect f [] b = (λ m. absurd (Memᴰ.not-nil m), λ (a, m, e). absurd (Memᴰ.not-nil m))
  mem-collect f (x ∷ xs) b = elim (Option-cases (f x)) [
    | inl e ↦ rw e (
      λ m. let (a, m', h) = (mem-collect f xs b).0 m in (a, Memᴰ.tail m', h),
      λ (a, m, h). elim (Memᴰ.cases_cons m) [
        | inl s ↦ cc
        | inr m' ↦ (mem-collect f xs b).1 (a, m', h)
      ],
    )
    | inr (y, e) ↦ rw e (
      λ m. elim (Memᴰ.cases_cons m) [
        | inl s ↦ (x, Memᴰ.head refl, cc)
        | inr m' ↦ let (a, m', h) = (mem-collect f xs b).0 m' in (a, Memᴰ.tail m', h)
      ],
      λ (a, m, h). elim (Memᴰ.cases_cons m) [
        | inl s ↦ Memᴰ.head cc
        | inr m' ↦ Memᴰ.tail ((mem-collect f xs b).1 (a, m', h))
      ],
    )
  ]

  pub mem-join :
      (f : A → List B) (xs : List A) (b : B)
      → Memᴰ b (join f xs) ↔ ((a : A) × Memᴰ a xs × Memᴰ b (f a))
  unfolding join
  mem-join f [] b = (λ m. absurd (Memᴰ.not-nil m), λ (a, m, e). absurd (Memᴰ.not-nil m))
  mem-join f (x ∷ xs) b = (
    λ m. elim (Memᴰ.append_cases (f x) m) [
      | inl here ↦ (x, Memᴰ.head refl, here)
      | inr later ↦ let (a, m', h) = (mem-join f xs b).0 later in (a, Memᴰ.tail m', h)
    ],
    λ (a, m, h). elim (Memᴰ.cases_cons m) [
      | inl s ↦ Memᴰ.append_left (join f xs) (subst (λ z. Memᴰ b (f z)) s h)
      | inr m' ↦ Memᴰ.append_right (f x) ((mem-join f xs b).1 (a, m', h))
    ],
  )

-- `HashSet::contains`
unfoldable pub mem_text : Text → List Text → Bool
unfolding any_if
mem_text t ts = any_if (text_eq t) ts

pub mem_text_iff : (t : Text) (ts : List Text) → (mem_text t ts ≡ true) ↔ Memᴰ t ts
unfolding mem_text any_if
mem_text_iff t [] = (λ h. cc h, λ m. absurd (Memᴰ.not-nil m))
mem_text_iff t (x ∷ xs) = elim (Bool-cases (text_eq t x)) [
  | inl e ↦ rw e (λ h. Memᴰ.head ((text_eq_iff t x).0 e), λ m. refl)
  | inr f ↦ rw f (
    λ h. Memᴰ.tail ((mem_text_iff t xs).0 h),
    λ m. elim (Memᴰ.cases_cons m) [
      | inl s ↦ cc ((text_eq_iff t x).1 s)
      | inr m' ↦ (mem_text_iff t xs).1 m'
    ],
  )
]

-- The order of `String`: the order of the code points is the order of the UTF-8 bytes.
unfoldable pub text_lt : Text → Text → Bool
text_lt s [] = false
text_lt [] (y ∷ ys) = true
text_lt (x ∷ xs) (y ∷ ys) = ltb x y || ((x == y) && text_lt xs ys)

unfoldable pub insert_text : Text → List Text → List Text
unfolding text_lt text_eq
insert_text t [] = t ∷ []
insert_text t (x ∷ xs) =
    let rest = insert_text t xs in
    if text_lt t x then t ∷ x ∷ xs else if text_eq t x then x ∷ xs else x ∷ rest

-- The elements of a set of texts, sorted.
unfoldable pub sorted_set : List Text → List Text
unfolding insert_text
sorted_set [] = []
sorted_set (t ∷ ts) = insert_text t (sorted_set ts)

abbrev pub IsAbove : Text → List Text → Type 0
IsAbove t [] = Unit
IsAbove t (x ∷ xs) = text_lt t x ≡ true

-- Strictly increasing, so without duplicates.
abbrev pub IsAscending : List Text → Type 0
IsAscending [] = Unit {0}
IsAscending (x ∷ xs) = IsAbove x xs × IsAscending xs

pub text_lt_irrefl : (t : Text) → text_lt t t ≡ false
unfolding text_lt
text_lt_irrefl [] = refl
text_lt_irrefl (x ∷ xs) = ground (arith, text_lt_irrefl xs)

pub text_lt_trans : (r s t : Text) → text_lt r s ≡ true → text_lt s t ≡ true → text_lt r t ≡ true
unfolding text_lt
text_lt_trans r [] t h k = cc
text_lt_trans r (y ∷ ys) [] h k = cc
text_lt_trans [] (y ∷ ys) (z ∷ zs) h k = refl
text_lt_trans (x ∷ xs) (y ∷ ys) (z ∷ zs) h k = ground (arith, text_lt_trans xs ys zs)

pub text_lt_neq : (s t : Text) → text_lt s t ≡ true → text_eq s t ≡ false
unfolding text_lt text_eq
text_lt_neq s [] h = cc
text_lt_neq [] (y ∷ ys) h = refl
text_lt_neq (x ∷ xs) (y ∷ ys) h = ground (arith, text_lt_neq xs ys)

pub text_lt_total : (s t : Text) → text_lt s t ≡ false → text_eq s t ≡ false → text_lt t s ≡ true
unfolding text_lt text_eq
text_lt_total [] [] h e = cc
text_lt_total [] (y ∷ ys) h e = cc
text_lt_total (x ∷ xs) [] h e = refl
text_lt_total (x ∷ xs) (y ∷ ys) h e = ground (arith, text_lt_total xs ys)

insert_text-IsAbove :
    (y t : Text) (xs : List Text) → text_lt y t ≡ true → IsAbove y xs → IsAbove y (insert_text t xs)
unfolding insert_text
insert_text-IsAbove y t [] h a = h
insert_text-IsAbove y t (x ∷ xs) h a = elim (Bool-cases (text_lt t x)) [
  | inl e ↦ rw e h
  | inr f ↦ rw f (elim (Bool-cases (text_eq t x)) [ inl e ↦ rw e a | inr g ↦ rw g a ])
]

insert_text-IsAscending :
    (t : Text) (xs : List Text) → IsAscending xs → IsAscending (insert_text t xs)
unfolding insert_text
insert_text-IsAscending t [] h = (tt, tt)
insert_text-IsAscending t (x ∷ xs) (a, h) = elim (Bool-cases (text_lt t x)) [
  | inl e ↦ rw e (e, (a, h))
  | inr f ↦ rw f (elim (Bool-cases (text_eq t x)) [
    | inl e ↦ rw e (a, h)
    | inr g ↦
        rw g (insert_text-IsAbove x t xs (text_lt_total t x f g) a, insert_text-IsAscending t xs h)
  ])
]

pub sorted_set-IsAscending : (ts : List Text) → IsAscending (sorted_set ts)
unfolding sorted_set
sorted_set-IsAscending [] = tt
sorted_set-IsAscending (t ∷ ts) =
    insert_text-IsAscending t (sorted_set ts) (sorted_set-IsAscending ts)

mem-insert_text : (v t : Text) (xs : List Text) → Memᴰ v (insert_text t xs) ↔ ((v ≡ t) ⊎ Memᴰ v xs)
unfolding insert_text
mem-insert_text v t [] = (
  λ m. inl (Memᴰ.eq_of_singleton m),
  λ h. elim h [ inl e ↦ Memᴰ.head e | inr m ↦ absurd (Memᴰ.not-nil m) ],
)
mem-insert_text v t (x ∷ xs) = elim (Bool-cases (text_lt t x)) [
  | inl e ↦ rw e (λ m. Memᴰ.cases_cons m, λ h. elim h [ inl s ↦ Memᴰ.head s | inr m ↦ Memᴰ.tail m ])
  | inr f ↦ rw f (elim (Bool-cases (text_eq t x)) [
    | inl e ↦
        rw e (λ m. inr m, λ h. elim h [ inl s ↦ Memᴰ.head (s ∙ (text_eq_iff t x).0 e) | inr m ↦ m ])
    | inr g ↦ rw g (
      λ m. elim (Memᴰ.cases_cons m) [
        | inl s ↦ inr (Memᴰ.head s)
        | inr m' ↦ elim ((mem-insert_text v t xs).0 m') [
          | inl s ↦ inl s
          | inr k ↦ inr (Memᴰ.tail k)
        ]
      ],
      λ h. elim h [
        | inl s ↦ Memᴰ.tail ((mem-insert_text v t xs).1 (inl s))
        | inr m ↦ elim (Memᴰ.cases_cons m) [
          | inl s ↦ Memᴰ.head s
          | inr m' ↦ Memᴰ.tail ((mem-insert_text v t xs).1 (inr m'))
        ]
      ],
    )
  ])
]

pub mem-sorted_set : (v : Text) (ts : List Text) → Memᴰ v (sorted_set ts) ↔ Memᴰ v ts
unfolding sorted_set
mem-sorted_set v [] = (λ m. m, λ m. m)
mem-sorted_set v (t ∷ ts) =
    let (to, from) = mem-sorted_set v ts in
    (
      λ m. elim ((mem-insert_text v t (sorted_set ts)).0 m) [
        | inl e ↦ Memᴰ.head e
        | inr m' ↦ Memᴰ.tail (to m')
      ],
      λ m.
          (mem-insert_text v t (sorted_set ts)).1
            (elim (Memᴰ.cases_cons m) [ inl e ↦ inl e | inr m' ↦ inr (from m') ]),
    )
