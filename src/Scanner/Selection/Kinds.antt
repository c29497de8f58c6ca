-- ===== src/Scanner/Selection/Kinds.antt =====
-- When `classify` (remy-cc/scanner-core/src/selection.rs) finds a variant: two symbols that differ.
use remy_cc.Prelude.{
  ◌≡◌, refl, sym, ◌∙◌, ap, subst, inl, inr, ◌↔◌, true, List, [], ◌∷◌, Text, Memᴰ, arith, map,
  length, ltb, text_lt, text_lt_irrefl, sorted_set, mem-sorted_set, IsAscending,
  sorted_set-IsAscending, Bool-cases,
}
use mathlib.Core.List.Memᴰ
use remy_cc.Scanner.Selection.{
  SymbolInfo, normalize_signature, types_of, signatures_of, signature_variant, classify,
}

-- Two elements that are not the same.
abbrev pub Differ : List Text → Type 0
Differ ts = (s : Text) × (t : Text) × Memᴰ s ts × Memᴰ t ts × ¬ (s ≡ t)

ahead : (x : Text) → ¬ (text_lt x x ≡ true)
ahead x h = cc (text_lt_irrefl x)

two_of_ascending : (xs : List Text) → IsAscending xs → (ltb 1 (length xs) ≡ true) ↔ Differ xs
two_of_ascending [] a = (λ h. ground arith, λ (s, t, m, k, d). absurd (Memᴰ.not-nil m))
two_of_ascending (x ∷ []) a = (
  λ h. ground arith,
  λ (s, t, m, k, d). absurd (d (Memᴰ.eq_of_singleton m ∙ sym (Memᴰ.eq_of_singleton k))),
)
two_of_ascending (x ∷ y ∷ xs) (above, rest) = (
  λ h. (
    x,
    y,
    Memᴰ.head refl,
    Memᴰ.tail (Memᴰ.head refl),
    λ e. ahead x (subst (λ z. text_lt x z ≡ true) (sym e) above),
  ),
  λ d. ground arith,
)

pub sorted_set-Differ : (ts : List Text) → (ltb 1 (length (sorted_set ts)) ≡ true) ↔ Differ ts
sorted_set-Differ ts =
    let (to, from) = two_of_ascending (sorted_set ts) (sorted_set-IsAscending ts) in
    (
      λ h.
          let (s, t, m, k, d) = to h in
          (s, t, (mem-sorted_set s ts).0 m, (mem-sorted_set t ts).0 k, d),
      λ (s, t, m, k, d). from (s, t, (mem-sorted_set s ts).1 m, (mem-sorted_set t ts).1 k, d),
    )

-- Symbols of one type whose signatures differ.
abbrev pub IsSignatureVariant : List SymbolInfo → Type 0
IsSignatureVariant symbols = (¬ Differ (types_of symbols)) × Differ (signatures_of symbols)

pub classify-IsSignatureVariant :
    (symbols : List SymbolInfo)
    → (classify symbols ≡ signature_variant) ↔ IsSignatureVariant symbols
unfolding classify
classify-IsSignatureVariant symbols =
    let (types_to, types_from) = sorted_set-Differ (types_of symbols) in
    let (args_to, args_from) = sorted_set-Differ (signatures_of symbols) in
    elim (Bool-cases (ltb 1 (length (sorted_set (types_of symbols))))) [
      | inl t ↦ rw (t, classify) (λ h. cc h, λ v. absurd (v.0 (types_to t)))
      | inr f ↦ elim (Bool-cases (ltb 1 (length (sorted_set (signatures_of symbols))))) [
        | inl u ↦ rw (f, u, classify) (λ h. (λ d. cc (types_from d), args_to u), λ v. refl)
        | inr g ↦ rw (f, g, classify) (λ h. cc h, λ v. cc (args_from v.1))
      ]
    ]

module _ {A : Type 0} (f : A → Text) where
  mem-map : (xs : List A) (v : Text) → Memᴰ v (map f xs) ↔ ((a : A) × Memᴰ a xs × (f a ≡ v))
  mem-map [] v = (λ m. absurd (Memᴰ.not-nil m), λ (a, m, e). absurd (Memᴰ.not-nil m))
  mem-map (x ∷ xs) v = (
    λ m. elim (Memᴰ.cases_cons m) [
      | inl e ↦ (x, Memᴰ.head refl, sym e)
      | inr m' ↦ let (a, k, e) = (mem-map xs v).0 m' in (a, Memᴰ.tail k, e)
    ],
    λ (a, m, e). elim (Memᴰ.cases_cons m) [
      | inl s ↦ Memᴰ.head (sym e ∙ ap f s)
      | inr m' ↦ Memᴰ.tail ((mem-map xs v).1 (a, m', e))
    ],
  )

  Differ-map :
      (xs ys : List A) → ((a : A) → Memᴰ a xs → Memᴰ a ys) → Differ (map f xs) → Differ (map f ys)
  Differ-map xs ys into (s, t, m, k, d) =
      let (a, ma, ea) = (mem-map xs s).0 m in
      let (b, mb, eb) = (mem-map xs t).0 k in
      (s, t, (mem-map ys s).1 (a, into a ma, ea), (mem-map ys t).1 (b, into b mb, eb), d)

-- Whether symbols are a signature variant does not depend on their order.
pub IsSignatureVariant-same :
    (xs ys : List SymbolInfo)
    → ((a : SymbolInfo) → Memᴰ a xs ↔ Memᴰ a ys)
    → IsSignatureVariant xs
    → IsSignatureVariant ys
IsSignatureVariant-same xs ys same (types, args) = (
  λ d. types (Differ-map (λ s. s.sym_type) ys xs (λ a. (same a).1) d),
  Differ-map (λ s. normalize_signature s.args) xs ys (λ a. (same a).0) args,
)
