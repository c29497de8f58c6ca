-- ===== src/Scanner/Selection/Canonical.antt =====
-- One canonical symbol for each name (remy-cc/scanner-core/src/selection.rs, `select_symbols`).
use remy_cc.Prelude.{
  ℕ, ◌+◌, ◌≤◌, ◌≡◌, refl, sym, ◌∙◌, ap, subst, inl, inr, Bool, true, false, List, [], ◌∷◌, ◌++◌,
  Text, Memᴰ, arith, text_lt, text_lt_neq, text_eq, text_eq_iff, select_if, mem-select_if,
  Bool-cases, if◌then◌else◌, order_by, insert_by, mem-order_by, order_by-mem, count_if,
  mem-cons_cases,
}
use mathlib.Core.List.Memᴰ
use remy_cc.Scanner.Selection.{
  SymbolInfo, Groups, sort_by_key, group_from, select_group, select_groups, select_symbols,
}
use remy_cc.Scanner.Selection.Groups.{named, IsGrouped, IsBefore, HasGroup, groups-IsGrouped}
use remy_cc.Scanner.Selection.Chosen.{IsChosen, is_before, key-IsStrict, sorted_group-IsChosen}

-- The canonical symbols of groups, before they are sorted.
record IsCanonical (symbols : List SymbolInfo) (groups : Groups) (canonical : List SymbolInfo)
    : Type 0 where
  chosen : (c : SymbolInfo) → Memᴰ c canonical → IsChosen (select_if (named c.name) symbols) c
  covers :
      (name : Text) → HasGroup name groups → (c : SymbolInfo) × Memᴰ c canonical × (c.name ≡ name)
  one : (name : Text) → count_if (named name) canonical ≤ 1
  none : (name : Text) → IsBefore name groups → count_if (named name) canonical ≡ 0

IsChosen-name :
    (symbols : List SymbolInfo) (name : Text) (c : SymbolInfo)
    → IsChosen (select_if (named name) symbols) c
    → c.name ≡ name
IsChosen-name symbols name c chosen =
    (text_eq_iff c.name name).0 ((mem-select_if (named name) symbols c).0 chosen.member).1

not_named :
    (n name : Text) (c : SymbolInfo) → c.name ≡ name → text_lt n name ≡ true → named n c ≡ false
not_named n name c at ahead = elim (Bool-cases (named n c)) [
  | inl t ↦
      let here : n ≡ name = sym ((text_eq_iff c.name n).0 t) ∙ at in
      let clash : text_eq n name ≡ true = (text_eq_iff n name).1 here in
      cc (text_lt_neq n name ahead)
  | inr f ↦ f
]

at_most : {k : ℕ} → k ≡ 0 → 1 + k ≤ 1
at_most e = omega (arith, e)

select_groups-cons :
    (name : Text) (group : List SymbolInfo) (groups : Groups) {c : SymbolInfo}
    → (select_group (sort_by_key group)).0 ≡ c ∷ []
    → (select_groups ((name, group) ∷ groups)).0 ≡ c ∷ (select_groups groups).0
unfolding select_groups
select_groups-cons name group groups e = ap (λ z. z ++ (select_groups groups).0) e

select_groups-IsCanonical :
    (symbols : List SymbolInfo) (groups : Groups)
    → IsGrouped symbols groups
    → IsCanonical symbols groups (select_groups groups).0
unfolding select_groups count_if
select_groups-IsCanonical symbols [] g = record {
  chosen = λ c m. absurd (Memᴰ.not-nil m);
  covers = λ name h. absurd (Memᴰ.not-nil h.1);
  one = λ name. omega arith;
  none = λ name b. refl;
}
select_groups-IsCanonical symbols ((name, group) ∷ groups) (e, some_symbol, before, rest) =
    let (c, alone, chosen) = sorted_group-IsChosen group some_symbol in
    let canonical = (select_groups groups).0 in
    let ih = select_groups-IsCanonical symbols groups rest in
    let chosen' = subst (λ g. IsChosen g c) e chosen in
    let at = IsChosen-name symbols name c chosen' in
    subst (IsCanonical symbols ((name, group) ∷ groups))
      (sym (select_groups-cons name group groups alone))
      (record {
        chosen = λ d m. elim (mem-cons_cases m) [
          | inl same ↦
              subst (λ z. IsChosen (select_if (named z.name) symbols) z) (sym same)
                (subst (λ n. IsChosen (select_if (named n) symbols) c) (sym at) chosen')
          | inr m' ↦ ih.chosen d m'
        ];
        covers = λ n h. elim (mem-cons_cases h.1) [
          | inl same ↦ (c, Memᴰ.head refl, at ∙ sym (ap (λ z. z.0) same))
          | inr m' ↦ let (d, k, same) = ih.covers n (h.0, m') in (d, Memᴰ.tail k, same)
        ];
        one = λ n. elim (Bool-cases (named n c)) [
          | inl t ↦
              let here : name ≡ n = sym at ∙ (text_eq_iff c.name n).0 t in
              rw t (at_most (ih.none n (subst (λ z. IsBefore z groups) here before)))
          | inr f ↦ rw f (omega (arith, ih.one n))
        ];
        none = λ n b. rw (not_named n name c at b.0) (omega (arith, ih.none n b.1));
      })

count_if-insert_by :
    (p : SymbolInfo → Bool) (x : SymbolInfo) (ys : List SymbolInfo)
    → count_if p (insert_by is_before x ys) ≡ count_if p (x ∷ ys)
unfolding count_if insert_by
count_if-insert_by p x [] = refl
count_if-insert_by p x (y ∷ ys) = ground (arith, count_if-insert_by p x ys)

count_if-order_by :
    (p : SymbolInfo → Bool) (xs : List SymbolInfo)
    → count_if p (order_by is_before xs) ≡ count_if p xs
unfolding count_if order_by
count_if-order_by p [] = refl
count_if-order_by p (x ∷ xs) =
    count_if-insert_by p x (order_by is_before xs)
    ∙ ap (λ n. (if p x then 1 else 0) + n) (count_if-order_by p xs)

-- The canonical symbols of a list of symbols.
pub record IsSelection (symbols canonical : List SymbolInfo) : Type 0 where
  pub chosen : (c : SymbolInfo) → Memᴰ c canonical → IsChosen (select_if (named c.name) symbols) c
  pub covers :
      (s : SymbolInfo) → Memᴰ s symbols → (c : SymbolInfo) × Memᴰ c canonical × (c.name ≡ s.name)
  pub one : (name : Text) → count_if (named name) canonical ≤ 1

-- For each name of the input `select_symbols` keeps exactly one symbol, and it is one of that name's: of
-- symbols of one type whose signatures differ, one that no other precedes by position and the other
-- fields of the key, and otherwise one that no other precedes by extent.
pub select_symbols-IsSelection :
    (symbols : List SymbolInfo) → IsSelection symbols (select_symbols symbols).canonical_symbols
unfolding select_symbols sort_by_key
select_symbols-IsSelection symbols =
    let groups = group_from [] symbols in
    let (grouped, has) = groups-IsGrouped symbols in
    let canonical = (select_groups groups).0 in
    let picked = select_groups-IsCanonical symbols groups grouped in
    record {
      chosen = λ c m. picked.chosen c (mem-order_by is_before key-IsStrict canonical m);
      covers = λ s m.
          let (c, k, e) = picked.covers s.name (has s m) in
          (c, order_by-mem is_before key-IsStrict canonical k, e);
      one = λ name.
          subst (λ n. n ≤ 1) (sym (count_if-order_by (named name) canonical)) (picked.one name);
    }
