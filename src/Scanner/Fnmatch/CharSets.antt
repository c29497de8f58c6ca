-- ===== src/Scanner/Fnmatch/CharSets.antt =====
-- The characters of a class, against its ranges and `class_matches`
-- (remy-cc/scanner-core/src/fnmatch.rs).
use remy_cc.Prelude.{
  ℕ, ◌≤◌, Bool, true, false, ◌≡◌, refl, sym, subst, ◌∙◌, ◌↔◌, ◌⊎◌, inl, inr, List, [], ◌∷◌, Text,
  arith, Bool-cases, ◌==◌, ==_iff, any_if,
}
use remy_cc.Scanner.Fnmatch.{class_ranges, class_matches, in_range}

-- The characters of a set: `lo-hi` is a range, and every other character is itself.
abbrev pub InSet : Text → ℕ → Type 0
InSet [] c = false ≡ true
InSet (lo ∷ []) c = c ≡ lo
InSet (lo ∷ d ∷ []) c = (c ≡ lo) ⊎ (c ≡ d)
InSet (lo ∷ d ∷ hi ∷ cs) c = elim (d == b'-') [
  | true ↦ ((lo ≤ c) × (c ≤ hi)) ⊎ InSet cs c
  | false ↦ (c ≡ lo) ⊎ InSet (d ∷ hi ∷ cs) c
]

abbrev pub IsIn : Bool → Text → ℕ → Type 0
IsIn true set c = ¬ InSet set c
IsIn false set c = InSet set c

any_if_first :
    {A : Type 0} (p : A → Bool) (x : A) (xs : List A) {P Q : Type 0}
    → (p x ≡ true) ↔ P
    → (any_if p xs ≡ true) ↔ Q
    → (any_if p (x ∷ xs) ≡ true) ↔ (P ⊎ Q)
unfolding any_if
any_if_first p x xs here there = elim (Bool-cases (p x)) [
  | inl t ↦ rw t (λ h. inl (here.0 t), λ h. refl)
  | inr f ↦
      rw f (λ h. inr (there.0 h), λ h. elim h [ inl q ↦ cc (sym f ∙ here.1 q) | inr q ↦ there.1 q ])
]

none_in : (c : ℕ) → (any_if (in_range c) [] ≡ true) ↔ (false ≡ true)
unfolding any_if
none_in c = (λ h. h, λ h. h)

in_range_iff : (c lo hi : ℕ) → (in_range c (lo, hi) ≡ true) ↔ ((lo ≤ c) × (c ≤ hi))
unfolding in_range
in_range_iff c lo hi = (λ h. (ground arith, ground arith), λ h. ground arith)

in_range_same : (c lo : ℕ) → (in_range c (lo, lo) ≡ true) ↔ (c ≡ lo)
unfolding in_range
in_range_same c lo = (λ h. ground arith, λ e. ground arith)

one_iff : {P : Type 0} → (P ⊎ (false ≡ true)) ↔ P
one_iff = (λ h. elim h [ inl p ↦ p | inr e ↦ cc e ], λ p. inl p)

iff_trans : {P Q R : Type 0} → P ↔ Q → Q ↔ R → P ↔ R
iff_trans p q = (λ h. q.0 (p.0 h), λ h. p.1 (q.1 h))

ranges-range :
    (lo d hi : ℕ) (cs : Text)
    → (d == b'-') ≡ true
    → class_ranges (lo ∷ d ∷ hi ∷ cs) ≡ (lo, hi) ∷ class_ranges cs
unfolding class_ranges
ranges-range lo d hi cs t = rw (t, class_ranges) refl

ranges-other :
    (lo d hi : ℕ) (cs : Text)
    → (d == b'-') ≡ false
    → class_ranges (lo ∷ d ∷ hi ∷ cs) ≡ (lo, lo) ∷ class_ranges (d ∷ hi ∷ cs)
unfolding class_ranges
ranges-other lo d hi cs f = rw (f, class_ranges) refl

ranges-pair : (lo d : ℕ) → class_ranges (lo ∷ d ∷ []) ≡ (lo, lo) ∷ (d, d) ∷ []
unfolding class_ranges
ranges-pair lo d = elim (Bool-cases (d == b'-')) [
  | inl t ↦ let e : d ≡ b'-' = (==_iff d b'-').0 t in rw (t, class_ranges) (rw e refl)
  | inr f ↦ rw (f, class_ranges) refl
]

InSet-range :
    (lo d hi : ℕ) (cs : Text) (c : ℕ)
    → (d == b'-') ≡ true
    → InSet (lo ∷ d ∷ hi ∷ cs) c ≡ (((lo ≤ c) × (c ≤ hi)) ⊎ InSet cs c)
InSet-range lo d hi cs c t = rw (t, InSet) refl

InSet-other :
    (lo d hi : ℕ) (cs : Text) (c : ℕ)
    → (d == b'-') ≡ false
    → InSet (lo ∷ d ∷ hi ∷ cs) c ≡ ((c ≡ lo) ⊎ InSet (d ∷ hi ∷ cs) c)
InSet-other lo d hi cs c f = rw (f, InSet) refl

by_paths :
    (c : ℕ) {r r' : List (ℕ × ℕ)} {P P' : Type 0}
    → r ≡ r'
    → P ≡ P'
    → (any_if (in_range c) r' ≡ true) ↔ P'
    → (any_if (in_range c) r ≡ true) ↔ P
by_paths c {r} {P' = Q} e f same =
    subst (λ R. (any_if (in_range c) r ≡ true) ↔ R) (sym f)
      (subst (λ z. (any_if (in_range c) z ≡ true) ↔ Q) (sym e) same)

class_ranges_iff :
    (set : Text) (c : ℕ) → (any_if (in_range c) (class_ranges set) ≡ true) ↔ InSet set c
unfolding class_ranges
class_ranges_iff [] c = none_in c
class_ranges_iff (lo ∷ []) c =
    iff_trans (any_if_first (in_range c) (lo, lo) [] (in_range_same c lo) (none_in c)) one_iff
class_ranges_iff (lo ∷ d ∷ []) c = by_paths c (ranges-pair lo d) refl (
    any_if_first (in_range c) (lo, lo) ((d, d) ∷ []) (in_range_same c lo)
      (iff_trans (any_if_first (in_range c) (d, d) [] (in_range_same c d) (none_in c)) one_iff))
class_ranges_iff (lo ∷ d ∷ hi ∷ cs) c = elim (Bool-cases (d == b'-')) [
  | inl t ↦ by_paths c (ranges-range lo d hi cs t) (InSet-range lo d hi cs c t) (
      any_if_first (in_range c) (lo, hi) (class_ranges cs) (in_range_iff c lo hi)
        (class_ranges_iff cs c))
  | inr f ↦ by_paths c (ranges-other lo d hi cs f) (InSet-other lo d hi cs c f) (
      any_if_first (in_range c) (lo, lo) (class_ranges (d ∷ hi ∷ cs)) (in_range_same c lo)
        (class_ranges_iff (d ∷ hi ∷ cs) c))
]

-- `class_matches` is membership of the set that the ranges are of.
pub class_matches_iff :
    (negated : Bool) (set : Text) (c : ℕ)
    → (class_matches negated (class_ranges set) c ≡ true) ↔ IsIn negated set c
unfolding class_matches
class_matches_iff true set c =
    let same = class_ranges_iff set c in
    (
      λ h i. let t = same.1 i in cc (rw t at h),
      λ out. elim (Bool-cases (any_if (in_range c) (class_ranges set))) [
        | inl t ↦ absurd (out (same.0 t))
        | inr f ↦ rw f refl
      ],
    )
class_matches_iff false set c = class_ranges_iff set c
