-- ===== src/Scanner/Selection/Chosen.antt =====
-- What `select_symbols` (remy-cc/scanner-core/src/selection.rs) chooses for each name.
use remy_cc.Prelude.{
  ℕ, suc, ◌≡◌, refl, sym, ◌∙◌, subst, inl, inr, ◌↔◌, Bool, true, false, List, [], ◌∷◌, Memᴰ,
  Bool-cases, order_by, mem-order_by, order_by-mem, order_by-IsSorted, IsSorted, IsStrict, Order,
  mem-cons_cases,
}
use mathlib.Core.List.Memᴰ
use remy_cc.Scanner.Selection.{
  SymbolInfo, stable_key_cmp, source_extent_cmp, is_less, sort_by_key, best_from, choose, classify,
  ConflictKind, type_variant, signature_variant, duplicate_definition, select_group,
}
use remy_cc.Scanner.Selection.Keys.{
  stable_key_cmp-IsComparison, source_extent_cmp-IsComparison, is_less-IsStrict,
}
use remy_cc.Scanner.Selection.Kinds.{
  IsSignatureVariant, IsSignatureVariant-same, classify-IsSignatureVariant,
}

-- No symbol of the group comes before `c` by the key.
abbrev pub IsFirst : (SymbolInfo → SymbolInfo → Order) → List SymbolInfo → SymbolInfo → Type 0
IsFirst cmp group c = (s : SymbolInfo) → Memᴰ s group → is_less (cmp s c) ≡ false

-- The symbol to keep of a group: of symbols of one type whose signatures differ the first by position,
-- and otherwise the first by extent.
pub record IsChosen (group : List SymbolInfo) (c : SymbolInfo) : Type 0 where
  pub member : Memᴰ c group
  pub by_position : IsSignatureVariant group → IsFirst stable_key_cmp group c
  pub by_extent : ¬ IsSignatureVariant group → IsFirst source_extent_cmp group c

extent-IsStrict : IsStrict (λ a b. is_less (source_extent_cmp a b))
extent-IsStrict = is_less-IsStrict source_extent_cmp source_extent_cmp-IsComparison

pub key-IsStrict : IsStrict (λ a b. is_less (stable_key_cmp a b))
key-IsStrict = is_less-IsStrict stable_key_cmp stable_key_cmp-IsComparison

pub best_from-less :
    (best : ℕ) (symbol : SymbolInfo) (i : ℕ) (s : SymbolInfo) (rest : List SymbolInfo)
    → is_less (source_extent_cmp s symbol) ≡ true
    → best_from best symbol i (s ∷ rest) ≡ best_from i s (suc i) rest
unfolding best_from
best_from-less best symbol i s rest t = rw (t, best_from) refl

pub best_from-not_less :
    (best : ℕ) (symbol : SymbolInfo) (i : ℕ) (s : SymbolInfo) (rest : List SymbolInfo)
    → is_less (source_extent_cmp s symbol) ≡ false
    → best_from best symbol i (s ∷ rest) ≡ best_from best symbol (suc i) rest
unfolding best_from
best_from-not_less best symbol i s rest f = rw (f, best_from) refl

IsFirst-cons :
    (cmp : SymbolInfo → SymbolInfo → Order) (group : List SymbolInfo) (c x : SymbolInfo)
    → is_less (cmp x c) ≡ false
    → IsFirst cmp group c
    → IsFirst cmp (x ∷ group) c
IsFirst-cons cmp group c x f first s m = elim (mem-cons_cases m) [
  | inl e ↦ subst (λ z. is_less (cmp z c) ≡ false) (sym e) f
  | inr m' ↦ first s m'
]

-- The best of the symbols that the loop has seen and those that are left.
best_from-IsFirst :
    (best : ℕ) (symbol : SymbolInfo) (i : ℕ) (rest : List SymbolInfo)
    → Memᴰ (best_from best symbol i rest).1 (symbol ∷ rest)
      × IsFirst source_extent_cmp (symbol ∷ rest) (best_from best symbol i rest).1
unfolding best_from
best_from-IsFirst best symbol i [] =
    (Memᴰ.head refl, λ s m. rw (Memᴰ.eq_of_singleton m) (extent-IsStrict.irrefl symbol))
best_from-IsFirst best symbol i (s ∷ rest) =
    elim (Bool-cases (is_less (source_extent_cmp s symbol))) [
      | inl t ↦
          let c = (best_from i s (suc i) rest).1 in
          let (m, first) = best_from-IsFirst i s (suc i) rest in
          subst
            (λ r. Memᴰ r.1 (symbol ∷ s ∷ rest) × IsFirst source_extent_cmp (symbol ∷ s ∷ rest) r.1)
            (sym (best_from-less best symbol i s rest t))
            (
              Memᴰ.tail m,
              IsFirst-cons source_extent_cmp (s ∷ rest) c symbol
                  (extent-IsStrict.trans symbol s c (extent-IsStrict.asym s symbol t)
                    (first s (Memᴰ.head refl)))
                  first,
            )
      | inr f ↦
          let c = (best_from best symbol (suc i) rest).1 in
          let (m, first) = best_from-IsFirst best symbol (suc i) rest in
          subst
            (λ r. Memᴰ r.1 (symbol ∷ s ∷ rest) × IsFirst source_extent_cmp (symbol ∷ s ∷ rest) r.1)
            (sym (best_from-not_less best symbol i s rest f))
            (
              elim (mem-cons_cases m) [ inl e ↦ Memᴰ.head e | inr m' ↦ Memᴰ.tail (Memᴰ.tail m') ],
              IsFirst-cons source_extent_cmp (s ∷ rest) c symbol (first symbol (Memᴰ.head refl)) (
                  IsFirst-cons source_extent_cmp rest c s
                    (extent-IsStrict.trans s symbol c f (first symbol (Memᴰ.head refl)))
                    (λ x k. first x (Memᴰ.tail k))),
            )
    ]

choose-IsChosen :
    (s : SymbolInfo) (rest : List SymbolInfo) (kind : ConflictKind)
    → classify (s ∷ rest) ≡ kind
    → ((y : SymbolInfo) → Memᴰ y rest → is_less (stable_key_cmp y s) ≡ false)
    → IsChosen (s ∷ rest) (choose kind s rest).0.1
unfolding choose
choose-IsChosen s rest signature_variant e sorted = record {
  member = Memᴰ.head refl;
  by_position = λ v. IsFirst-cons stable_key_cmp rest s s (key-IsStrict.irrefl s) sorted;
  by_extent = λ n. absurd (n ((classify-IsSignatureVariant (s ∷ rest)).0 e));
}
choose-IsChosen s rest type_variant e sorted = record {
  member = (best_from-IsFirst 0 s 1 rest).0;
  by_position = λ v. cc (sym e ∙ (classify-IsSignatureVariant (s ∷ rest)).1 v);
  by_extent = λ n. (best_from-IsFirst 0 s 1 rest).1;
}
choose-IsChosen s rest duplicate_definition e sorted = record {
  member = (best_from-IsFirst 0 s 1 rest).0;
  by_position = λ v. cc (sym e ∙ (classify-IsSignatureVariant (s ∷ rest)).1 v);
  by_extent = λ n. (best_from-IsFirst 0 s 1 rest).1;
}

abbrev pub is_before : SymbolInfo → SymbolInfo → Bool
is_before a b = is_less (stable_key_cmp a b)

-- A sorted group that is not empty has one canonical symbol.
select_group-IsChosen :
    (ordered : List SymbolInfo)
    → IsSorted is_before ordered
    → ((x : SymbolInfo) × Memᴰ x ordered)
    → (c : SymbolInfo) × ((select_group ordered).0 ≡ c ∷ []) × IsChosen ordered c
unfolding select_group
select_group-IsChosen [] sorted (x, m) = absurd (Memᴰ.not-nil m)
select_group-IsChosen (s ∷ []) sorted one = (
  s,
  refl,
  record {
    member = Memᴰ.head refl;
    by_position = λ v x m. rw (Memᴰ.eq_of_singleton m) (key-IsStrict.irrefl s);
    by_extent = λ n x m. rw (Memᴰ.eq_of_singleton m) (extent-IsStrict.irrefl s);
  },
)
select_group-IsChosen (s ∷ t ∷ rest) (first, sorted) one =
    (_, refl, choose-IsChosen s (t ∷ rest) (classify (s ∷ t ∷ rest)) refl first)

IsChosen-same :
    (xs ys : List SymbolInfo) (c : SymbolInfo)
    → ((a : SymbolInfo) → Memᴰ a xs ↔ Memᴰ a ys)
    → IsChosen xs c
    → IsChosen ys c
IsChosen-same xs ys c same chosen = record {
  member = (same c).0 chosen.member;
  by_position = λ v s m.
      chosen.by_position (IsSignatureVariant-same ys xs (λ a. ((same a).1, (same a).0)) v) s
        ((same s).1 m);
  by_extent =
      λ n s m. chosen.by_extent (λ v. n (IsSignatureVariant-same xs ys same v)) s ((same s).1 m);
}

pub sorted_group-IsChosen :
    (group : List SymbolInfo)
    → ((x : SymbolInfo) × Memᴰ x group)
    → (c : SymbolInfo) × ((select_group (sort_by_key group)).0 ≡ c ∷ []) × IsChosen group c
unfolding sort_by_key
sorted_group-IsChosen group (x, m) =
    let ordered = order_by is_before group in
    let (c, e, chosen) =
      select_group-IsChosen ordered (order_by-IsSorted is_before key-IsStrict group)
        (x, order_by-mem is_before key-IsStrict group m) in
    (
      c,
      e,
      IsChosen-same ordered group c
          (λ a.
            (mem-order_by is_before key-IsStrict group, order_by-mem is_before key-IsStrict group))
          chosen,
    )
