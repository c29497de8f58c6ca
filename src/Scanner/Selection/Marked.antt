-- ===== src/Scanner/Selection/Marked.antt =====
-- The occurrences that `select_symbols` (remy-cc/scanner-core/src/selection.rs) records.
use remy_cc.Prelude.{
  ℕ, zero, suc, ◌+◌, ◌≡◌, refl, sym, ◌∙◌, ap, subst, inl, inr, true, List, [], ◌∷◌, Memᴰ, arith,
  Bool-cases, ==_iff, mem-cons_cases, order_by, mem-order_by, order_by-mem, mem-select_if,
}
use mathlib.Core.List.Memᴰ
use remy_cc.Scanner.Selection.{
  SymbolInfo, Groups, SelectedOccurrence, ConflictKind, type_variant, signature_variant,
  duplicate_definition, SelectionReason, source_extent_cmp, is_less, sort_by_key, group_from,
  best_from, choose, classify, occurrences_from, select_group, select_groups, select_symbols,
}
use remy_cc.Scanner.Selection.Groups.{IsGrouped, groups-IsGrouped, named}
use remy_cc.Scanner.Selection.Chosen.{best_from-less, best_from-not_less, is_before, key-IsStrict}

-- The element at an index.
abbrev At : ℕ → List SymbolInfo → SymbolInfo → Type 0
At n [] s = ⊥
At zero (x ∷ xs) s = x ≡ s
At (suc n) (x ∷ xs) s = At n xs s

At-unique : (n : ℕ) (xs : List SymbolInfo) (s t : SymbolInfo) → At n xs s → At n xs t → s ≡ t
At-unique n [] s t h k = absurd h
At-unique zero (x ∷ xs) s t h k = sym h ∙ k
At-unique (suc n) (x ∷ xs) s t h k = At-unique n xs s t h k

-- `rest` is what the list has from the index `i` on.
abbrev FromIndex : List SymbolInfo → ℕ → List SymbolInfo → Type 0
FromIndex whole i rest = (k : ℕ) (s : SymbolInfo) → At k rest s → At (i + k) whole s

FromIndex-here :
    (whole : List SymbolInfo) (i : ℕ) (x : SymbolInfo) (rest : List SymbolInfo)
    → FromIndex whole i (x ∷ rest)
    → At i whole x
FromIndex-here whole i x rest from = subst (λ n. At n whole x) (omega arith) (from 0 x refl)

FromIndex-next :
    (whole : List SymbolInfo) (i : ℕ) (x : SymbolInfo) (rest : List SymbolInfo)
    → FromIndex whole i (x ∷ rest)
    → FromIndex whole (suc i) rest
FromIndex-next whole i x rest from k s h =
    subst (λ n. At n whole s) (omega arith) (from (suc k) s h)

best_from-At :
    (whole : List SymbolInfo) (best : ℕ) (symbol : SymbolInfo) (i : ℕ) (rest : List SymbolInfo)
    → At best whole symbol
    → FromIndex whole i rest
    → At (best_from best symbol i rest).0 whole (best_from best symbol i rest).1
unfolding best_from
best_from-At whole best symbol i [] at from = at
best_from-At whole best symbol i (s ∷ rest) at from =
    elim (Bool-cases (is_less (source_extent_cmp s symbol))) [
      | inl t ↦
          subst (λ r. At r.0 whole r.1) (sym (best_from-less best symbol i s rest t))
            (best_from-At whole i s (suc i) rest (FromIndex-here whole i s rest from)
              (FromIndex-next whole i s rest from))
      | inr f ↦
          subst (λ r. At r.0 whole r.1) (sym (best_from-not_less best symbol i s rest f))
            (best_from-At whole best symbol (suc i) rest at (FromIndex-next whole i s rest from))
    ]

FromIndex-tail : (x : SymbolInfo) (rest : List SymbolInfo) → FromIndex (x ∷ rest) 1 rest
FromIndex-tail x rest k s h =
    let e : suc k ≡ 1 + k = omega arith in subst (λ n. At n (x ∷ rest) s) e h

choose-At :
    (kind : ConflictKind) (s : SymbolInfo) (rest : List SymbolInfo)
    → At (choose kind s rest).0.0 (s ∷ rest) (choose kind s rest).0.1
unfolding choose
choose-At signature_variant s rest = refl
choose-At type_variant s rest = best_from-At (s ∷ rest) 0 s 1 rest refl (FromIndex-tail s rest)
choose-At duplicate_definition s rest =
    best_from-At (s ∷ rest) 0 s 1 rest refl (FromIndex-tail s rest)

-- An occurrence has a symbol of the group, and the mark is at the index.
occurrences_from-At :
    (whole : List SymbolInfo) (selected : ℕ) (kind : ConflictKind) (reason : SelectionReason)
    (i : ℕ) (rest : List SymbolInfo)
    → FromIndex whole i rest
    → (o : SelectedOccurrence) → Memᴰ o (occurrences_from selected kind reason i rest)
    → Memᴰ o.symbol rest × (o.is_canonical ≡ true → At selected whole o.symbol)
unfolding occurrences_from
occurrences_from-At whole selected kind reason i [] from o m = absurd (Memᴰ.not-nil m)
occurrences_from-At whole selected kind reason i (s ∷ rest) from o m = elim (mem-cons_cases m) [
  | inl e ↦ (
    Memᴰ.head (ap (λ z. z.symbol) e),
    λ h.
        let here : i ≡ selected = (==_iff i selected).0 (sym (ap (λ z. z.is_canonical) e) ∙ h) in
        subst (λ z. At selected whole z) (sym (ap (λ z. z.symbol) e))
          (subst (λ n. At n whole s) here (FromIndex-here whole i s rest from)),
  )
  | inr m' ↦
      let (k, marked) =
        occurrences_from-At whole selected kind reason (suc i) rest
          (FromIndex-next whole i s rest from) o m' in
      (Memᴰ.tail k, marked)
]

-- What an occurrence of a group is.
abbrev Marks : List SymbolInfo → List SymbolInfo → SelectedOccurrence → Type 0
Marks group canonical o = Memᴰ o.symbol group × (o.is_canonical ≡ true → Memᴰ o.symbol canonical)

select_group-Marks :
    (ordered : List SymbolInfo) (o : SelectedOccurrence)
    → Memᴰ o (select_group ordered).1
    → Marks ordered (select_group ordered).0 o
unfolding select_group
select_group-Marks [] o m = absurd (Memᴰ.not-nil m)
select_group-Marks (s ∷ []) o m = absurd (Memᴰ.not-nil m)
select_group-Marks (s ∷ t ∷ rest) o m =
    let whole = s ∷ t ∷ rest in
    let kind = classify whole in
    let picked = choose kind s (t ∷ rest) in
    let (k, marked) =
      occurrences_from-At whole picked.0.0 kind picked.1 0 whole
        (λ n x h. subst (λ z. At z whole x) (omega arith) h) o m in
    (
      k,
      λ h.
          Memᴰ.head (
            At-unique picked.0.0 whole o.symbol picked.0.1 (marked h)
              (choose-At kind s (t ∷ rest))),
    )

select_groups-Marks :
    (symbols : List SymbolInfo) (groups : Groups)
    → IsGrouped symbols groups
    → (o : SelectedOccurrence) → Memᴰ o (select_groups groups).1
    → Marks symbols (select_groups groups).0 o
unfolding select_groups sort_by_key
select_groups-Marks symbols [] g o m = absurd (Memᴰ.not-nil m)
select_groups-Marks symbols ((name, group) ∷ groups) (e, one, before, rest) o m =
    let ordered = order_by is_before group in
    let first = (select_group ordered).0 in
    elim (Memᴰ.append_cases (select_group ordered).1 m) [
      | inl here ↦
          let (k, marked) = select_group-Marks ordered o here in
          let in_group =
            subst (λ g. Memᴰ o.symbol g) e (mem-order_by is_before key-IsStrict group k) in
          (
            ((mem-select_if (named name) symbols o.symbol).0 in_group).0,
            λ h. Memᴰ.append_left (select_groups groups).0 (marked h),
          )
      | inr later ↦
          let (k, marked) = select_groups-Marks symbols groups rest o later in
          (k, λ h. Memᴰ.append_right first (marked h))
    ]

-- Every occurrence that `select_symbols` records is of a symbol of the input, and one that it marks as
-- canonical is of a symbol that it keeps.
pub select_symbols-Marks :
    (symbols : List SymbolInfo) (o : SelectedOccurrence)
    → Memᴰ o (select_symbols symbols).occurrences
    → Memᴰ o.symbol symbols
      × (o.is_canonical ≡ true → Memᴰ o.symbol (select_symbols symbols).canonical_symbols)
unfolding select_symbols sort_by_key
select_symbols-Marks symbols o m =
    let groups = group_from [] symbols in
    let (k, marked) = select_groups-Marks symbols groups (groups-IsGrouped symbols).0 o m in
    (k, λ h. order_by-mem is_before key-IsStrict (select_groups groups).0 (marked h))
