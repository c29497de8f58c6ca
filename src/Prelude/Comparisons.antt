-- ===== src/Prelude/Comparisons.antt =====
-- `std::cmp::Ordering`, and comparisons that order their type.
use Prim.Native.Nat.{ℕ, compare, Ordering}
use mathlib.Core.Path.{◌≡◌, refl, sym, ap, ◌∙◌}
use mathlib.Core.Logic.{◌⊎◌, inl, inr}
use mathlib.Core.Bool.{Bool, true, false}
use mathlib.Core.List.{List, [], ◌∷◌}
use native.Mathlib.Omega.{arith}
use remy_cc.Prelude.Texts.{Text}

pub data Order : Type 0 where
  less equal greater : Order

unfoldable pub then_with : Order → Order → Order
then_with less o = less
then_with equal o = o
then_with greater o = greater

unfoldable pub reversed : Order → Order
reversed less = greater
reversed equal = equal
reversed greater = less

unfoldable pub cmp_nat : ℕ → ℕ → Order
cmp_nat a b = elim (compare a b) [
  | Ordering.lt ↦ less
  | Ordering.eq ↦ equal
  | Ordering.gt ↦ greater
]

unfoldable pub cmp_bool : Bool → Bool → Order
cmp_bool false true = less
cmp_bool true false = greater
cmp_bool true true = equal
cmp_bool false false = equal

unfoldable pub cmp_list {ℓ} : {A : Type ℓ} → (A → A → Order) → List A → List A → Order
unfolding then_with
cmp_list c [] [] = equal
cmp_list c [] (y ∷ ys) = less
cmp_list c (x ∷ xs) [] = greater
cmp_list c (x ∷ xs) (y ∷ ys) = then_with (c x y) (cmp_list c xs ys)

unfoldable pub cmp_text : Text → Text → Order
unfolding cmp_list cmp_nat
cmp_text = cmp_list cmp_nat

pub record IsComparison {ℓ} {A : Type ℓ} (c : A → A → Order) : Type ℓ where
  pub flip : (a b : A) → c b a ≡ reversed (c a b)
  pub trans : (a b d : A) → c a b ≡ less → c b d ≡ less → c a d ≡ less
  pub same : (a b : A) → c a b ≡ equal → (d : A) → c a d ≡ c b d

pub cmp_nat-IsComparison : IsComparison cmp_nat
unfolding cmp_nat reversed
cmp_nat-IsComparison = record {
  flip = λ a b. ground arith;
  trans = λ a b d h k. ground arith;
  same = λ a b h d. ground arith;
}

pub cmp_bool-IsComparison : IsComparison cmp_bool
unfolding cmp_bool reversed
cmp_bool-IsComparison = record {
  flip = λ a b. ground arith;
  trans = λ a b d h k. ground arith;
  same = λ a b h d. ground arith;
}

pub Order-cases : (o : Order) → (o ≡ less) ⊎ ((o ≡ equal) ⊎ (o ≡ greater))
Order-cases less = inl refl
Order-cases equal = inr (inl refl)
Order-cases greater = inr (inr refl)

reversed-reversed : (o : Order) → reversed (reversed o) ≡ o
unfolding reversed
reversed-reversed less = refl
reversed-reversed equal = refl
reversed-reversed greater = refl

reversed-then_with : (o p : Order) → then_with (reversed o) (reversed p) ≡ reversed (then_with o p)
unfolding reversed then_with
reversed-then_with less p = refl
reversed-then_with equal p = refl
reversed-then_with greater p = refl

then_with-less : (o p : Order) → then_with o p ≡ less → (o ≡ less) ⊎ ((o ≡ equal) × (p ≡ less))
unfolding then_with
then_with-less less p h = inl refl
then_with-less equal p h = inr (refl, h)
then_with-less greater p h = cc

then_with-equal : (o p : Order) → then_with o p ≡ equal → (o ≡ equal) × (p ≡ equal)
unfolding then_with
then_with-equal less p h = cc
then_with-equal equal p h = (refl, h)
then_with-equal greater p h = cc

module _ {ℓ} {A : Type ℓ} where
  module _ (c : A → A → Order) (law : IsComparison c) where
    pub same_right : (a b d : A) → c b d ≡ equal → c a b ≡ c a d
    same_right a b d h =
        sym (reversed-reversed (c a b))
        ∙ ap reversed (sym (law.flip a b) ∙ law.same b d h a ∙ law.flip a d)
        ∙ reversed-reversed (c a d)

    pub reflexive : (a : A) → c a a ≡ equal
    unfolding reversed
    reflexive a = self (c a a) (law.flip a a)
      where
        self : (o : Order) → o ≡ reversed o → o ≡ equal
        self less e = cc
        self equal e = refl
        self greater e = cc

  pub IsComparison-then :
      (c e : A → A → Order)
      → IsComparison c
      → IsComparison e
      → IsComparison (λ a b. then_with (c a b) (e a b))
  unfolding then_with
  IsComparison-then c e first second = record {
    flip = λ a b.
        ap (λ o. then_with o (e b a)) (first.flip a b)
        ∙ ap (then_with (reversed (c a b))) (second.flip a b)
        ∙ reversed-then_with (c a b) (e a b);
    trans = λ a b d h k. elim (then_with-less (c a b) (e a b) h) [
      | inl l ↦ elim (then_with-less (c b d) (e b d) k) [
        | inl m ↦ early a d (first.trans a b d l m)
        | inr (m, n) ↦ early a d (sym (same_right c first a b d m) ∙ l)
      ]
      | inr (l, n) ↦ elim (then_with-less (c b d) (e b d) k) [
        | inl m ↦ early a d (first.same a b l d ∙ m)
        | inr (m, o) ↦ late a d (first.same a b l d ∙ m) (second.trans a b d n o)
      ]
    ];
    same = λ a b h d.
        let (l, m) = then_with-equal (c a b) (e a b) h in
        ap (λ o. then_with o (e a d)) (first.same a b l d)
        ∙ ap (then_with (c b d)) (second.same a b m d);
  }
    where
      early : (a d : A) → c a d ≡ less → then_with (c a d) (e a d) ≡ less
      early a d h = ap (λ o. then_with o (e a d)) h

      late : (a d : A) → c a d ≡ equal → e a d ≡ less → then_with (c a d) (e a d) ≡ less
      late a d h k = ap (λ o. then_with o (e a d)) h ∙ k

  pub IsComparison-opposite : (c : A → A → Order) → IsComparison c → IsComparison (λ a b. c b a)
  IsComparison-opposite c law = record {
    flip = λ a b. law.flip b a;
    trans = λ a b d h k. law.trans d b a k h;
    same = λ a b h d. sym (same_right c law d b a h);
  }

  pub IsComparison-on {κ} :
      {B : Type κ} (f : B → A) (c : A → A → Order)
      → IsComparison c
      → IsComparison (λ a b. c (f a) (f b))
  IsComparison-on f c law = record {
    flip = λ a b. law.flip (f a) (f b);
    trans = λ a b d. law.trans (f a) (f b) (f d);
    same = λ a b h d. law.same (f a) (f b) h (f d);
  }

  module _ (c : A → A → Order) (law : IsComparison c) where
    flip_list : (xs ys : List A) → cmp_list c ys xs ≡ reversed (cmp_list c xs ys)
    unfolding cmp_list reversed
    flip_list [] [] = refl
    flip_list [] (b ∷ ys) = refl
    flip_list (a ∷ xs) [] = refl
    flip_list (a ∷ xs) (b ∷ ys) =
        ap (λ o. then_with o (cmp_list c ys xs)) (law.flip a b)
        ∙ ap (then_with (reversed (c a b))) (flip_list xs ys)
        ∙ reversed-then_with (c a b) (cmp_list c xs ys)

    same_list :
        (xs ys : List A)
        → cmp_list c xs ys ≡ equal
        → (zs : List A) → cmp_list c xs zs ≡ cmp_list c ys zs
    unfolding cmp_list
    same_list [] [] h zs = refl
    same_list [] (b ∷ ys) h zs = cc
    same_list (a ∷ xs) [] h zs = cc
    same_list (a ∷ xs) (b ∷ ys) h [] = refl
    same_list (a ∷ xs) (b ∷ ys) h (d ∷ zs) =
        let (l, m) = then_with-equal (c a b) (cmp_list c xs ys) h in
        ap (λ o. then_with o (cmp_list c xs zs)) (law.same a b l d)
        ∙ ap (then_with (c b d)) (same_list xs ys m zs)

    trans_list :
        (xs ys zs : List A)
        → cmp_list c xs ys ≡ less
        → cmp_list c ys zs ≡ less
        → cmp_list c xs zs ≡ less
    unfolding cmp_list
    trans_list xs [] [] h k = h
    trans_list xs (b ∷ ys) [] h k = cc
    trans_list [] ys (d ∷ zs) h k = refl
    trans_list (a ∷ xs) [] (d ∷ zs) h k = cc
    trans_list (a ∷ xs) (b ∷ ys) (d ∷ zs) h k = elim (then_with-less (c a b) (cmp_list c xs ys) h) [
      | inl l ↦ elim (then_with-less (c b d) (cmp_list c ys zs) k) [
        | inl m ↦ ap (λ o. then_with o (cmp_list c xs zs)) (law.trans a b d l m)
        | inr (m, n) ↦ ap (λ o. then_with o (cmp_list c xs zs)) (sym (same_right c law a b d m) ∙ l)
      ]
      | inr (l, n) ↦ elim (then_with-less (c b d) (cmp_list c ys zs) k) [
        | inl m ↦ ap (λ o. then_with o (cmp_list c xs zs)) (law.same a b l d ∙ m)
        | inr (m, o) ↦
            ap (λ o. then_with o (cmp_list c xs zs)) (law.same a b l d ∙ m)
            ∙ trans_list xs ys zs n o
      ]
    ]

    pub IsComparison-list : IsComparison (cmp_list c)
    IsComparison-list = record { flip = flip_list; trans = trans_list; same = same_list }

pub cmp_text-IsComparison : IsComparison cmp_text
unfolding cmp_text
cmp_text-IsComparison = IsComparison-list cmp_nat cmp_nat-IsComparison
