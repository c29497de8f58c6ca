-- ===== src/Scanner/Selection/Groups.antt =====
-- The groups that `select_symbols` (remy-cc/scanner-core/src/selection.rs) collects.
use remy_cc.Prelude.{
  ◌≡◌, refl, sym, ◌∙◌, ap, subst, ◌⊎◌, inl, inr, Bool, true, false, List, [], ◌∷◌, ◌++◌, Text, Memᴰ,
  arith, text_lt, text_lt_irrefl, text_lt_trans, text_lt_neq, text_lt_total, text_eq, text_eq_iff,
  text_eq_refl, select_if, Bool-cases, if◌then◌else◌,
}
use mathlib.Core.List.{append-nil, append_assoc}
use mathlib.Core.List.Memᴰ
use remy_cc.Scanner.Selection.{SymbolInfo, Groups, push_symbol, group_from}

abbrev pub named : Text → SymbolInfo → Bool
named name s = text_eq s.name name

-- Every name of the groups is after `name`.
abbrev pub IsBefore : Text → Groups → Type 0
IsBefore name [] = Unit {0}
IsBefore name ((n, g) ∷ groups) = (text_lt name n ≡ true) × IsBefore name groups

-- The groups of a list of symbols: each has all symbols of its name, in their order, and the names
-- ascend.
abbrev pub IsGrouped : List SymbolInfo → Groups → Type 0
IsGrouped symbols [] = Unit {0}
IsGrouped symbols ((name, group) ∷ groups) =
    (group ≡ select_if (named name) symbols)
    × ((s : SymbolInfo) × Memᴰ s group)
    × IsBefore name groups
    × IsGrouped symbols groups

abbrev pub HasGroup : Text → Groups → Type 0
HasGroup name groups = (group : List SymbolInfo) × Memᴰ (name, group) groups

IsBefore-trans :
    (r s : Text) (groups : Groups) → text_lt r s ≡ true → IsBefore s groups → IsBefore r groups
IsBefore-trans r s [] h b = tt
IsBefore-trans r s ((n, g) ∷ groups) h (k, b) =
    (text_lt_trans r s n h k, IsBefore-trans r s groups h b)

-- A symbol at the end joins the group of its name.
select_if-last :
    (p : SymbolInfo → Bool) (xs : List SymbolInfo) (s : SymbolInfo)
    → select_if p (xs ++ s ∷ []) ≡ (if p s then select_if p xs ++ s ∷ [] else select_if p xs)
unfolding select_if
select_if-last p [] s = elim (Bool-cases (p s)) [ inl t ↦ rw t refl | inr f ↦ rw f refl ]
select_if-last p (x ∷ xs) s = ground (arith, select_if-last p xs s)

-- Groups whose names are not the symbol's stay as they are.
IsGrouped-other :
    (symbols : List SymbolInfo) (s : SymbolInfo) (groups : Groups)
    → IsBefore s.name groups
    → IsGrouped symbols groups
    → IsGrouped (symbols ++ s ∷ []) groups
IsGrouped-other symbols s [] b g = tt
IsGrouped-other symbols s ((n, group) ∷ groups) (k, b) (e, one, before, rest) = (
  e ∙ sym (select_if-last (named n) symbols s ∙ unnamed),
  one,
  before,
  IsGrouped-other symbols s groups b rest,
)
  where
    unnamed :
        (if named n s then select_if (named n) symbols ++ s ∷ [] else select_if (named n) symbols)
        ≡ select_if (named n) symbols
    unnamed = rw (text_lt_neq s.name n k) refl

select_if-nil :
    (p : SymbolInfo → Bool) (xs : List SymbolInfo)
    → ((x : SymbolInfo) → Memᴰ x xs → p x ≡ false)
    → select_if p xs ≡ []
unfolding select_if
select_if-nil p [] h = refl
select_if-nil p (x ∷ xs) h =
    rw (h x (Memᴰ.head refl)) (select_if-nil p xs (λ y m. h y (Memᴰ.tail m)))

IsBefore-HasGroup : (name : Text) (groups : Groups) → IsBefore name groups → ¬ HasGroup name groups
IsBefore-HasGroup name [] b (g, m) = Memᴰ.not-nil m
IsBefore-HasGroup name ((n, h) ∷ groups) (k, b) (g, m) = elim (Memᴰ.cases_cons m) [
  | inl e ↦
      let same : name ≡ n = ap (λ z. z.0) e in
      let ahead : text_lt n n ≡ true = subst (λ z. text_lt z n ≡ true) same k in
      cc (text_lt_irrefl n)
  | inr m' ↦ IsBefore-HasGroup name groups b (g, m')
]

-- A symbol whose group is not there has no namesake.
IsGrouped-new :
    (symbols : List SymbolInfo) (s : SymbolInfo) (groups : Groups)
    → ((t : SymbolInfo) → Memᴰ t symbols → named s.name t ≡ true → HasGroup s.name groups)
    → IsBefore s.name groups
    → IsGrouped symbols groups
    → IsGrouped (symbols ++ s ∷ []) ((s.name, s ∷ []) ∷ groups)
IsGrouped-new symbols s groups has b g =
    (alone, (s, Memᴰ.head refl), b, IsGrouped-other symbols s groups b g)
  where
    other : (t : SymbolInfo) → Memᴰ t symbols → named s.name t ≡ false
    other t m = elim (Bool-cases (named s.name t)) [
      | inl h ↦ absurd (IsBefore-HasGroup s.name groups b (has t m h))
      | inr f ↦ f
    ]

    alone : s ∷ [] ≡ select_if (named s.name) (symbols ++ s ∷ [])
    alone = sym (
        select_if-last (named s.name) symbols s
        ∙ rw (text_eq_refl s.name) (rw (select_if-nil (named s.name) symbols other) refl))

IsBefore-push :
    (name : Text) (s : SymbolInfo) (groups : Groups)
    → text_lt name s.name ≡ true
    → IsBefore name groups
    → IsBefore name (push_symbol s groups)
unfolding push_symbol
IsBefore-push name s [] h b = (h, tt)
IsBefore-push name s ((n, g) ∷ groups) h (k, b) = elim (Bool-cases (text_eq s.name n)) [
  | inl t ↦ rw t (k, b)
  | inr f ↦ rw f (elim (Bool-cases (text_lt s.name n)) [
    | inl t ↦ rw t (h, (k, b))
    | inr e ↦ rw e (k, IsBefore-push name s groups h b)
  ])
]

joins :
    (n : Text) (s : SymbolInfo) (symbols : List SymbolInfo)
    → text_eq s.name n ≡ true
    → select_if (named n) symbols ++ s ∷ [] ≡ select_if (named n) (symbols ++ s ∷ [])
joins n s symbols t = sym (select_if-last (named n) symbols s ∙ rw t refl)

elsewhere :
    {m n : Text} {g : List SymbolInfo} {groups : Groups}
    → text_eq m n ≡ false
    → HasGroup m ((n, g) ∷ groups)
    → HasGroup m groups
elsewhere {m} {n} f (h, i) = elim (Memᴰ.cases_cons i) [
  | inl e ↦ let same : m ≡ n = ap (λ z. z.0) e in cc ((text_eq_iff m n).1 same)
  | inr i' ↦ (h, i')
]

push_symbol-IsGrouped :
    (symbols : List SymbolInfo) (s : SymbolInfo) (groups : Groups)
    → ((t : SymbolInfo) → Memᴰ t symbols → named s.name t ≡ true → HasGroup s.name groups)
    → IsGrouped symbols groups
    → IsGrouped (symbols ++ s ∷ []) (push_symbol s groups)
unfolding push_symbol
push_symbol-IsGrouped symbols s [] has g = IsGrouped-new symbols s [] has tt tt
push_symbol-IsGrouped symbols s ((n, group) ∷ groups) has (e, (x, m), before, rest) =
    elim (Bool-cases (text_eq s.name n)) [
      | inl t ↦
          let same : s.name ≡ n = (text_eq_iff s.name n).0 t in
          rw (t, push_symbol)
            (
              ap (λ g. g ++ s ∷ []) e ∙ joins n s symbols t,
              (x, Memᴰ.append_left (s ∷ []) m),
              before,
              IsGrouped-other symbols s groups (subst (λ z. IsBefore z groups) (sym same) before)
                  rest,
            )
      | inr f ↦ elim (Bool-cases (text_lt s.name n)) [
        | inl t ↦
            rw (f, t, push_symbol)
              (IsGrouped-new symbols s ((n, group) ∷ groups) has
                (t, IsBefore-trans s.name n groups t before) (e, (x, m), before, rest))
        | inr k ↦
            let after : text_lt n s.name ≡ true = text_lt_total s.name n k f in
            rw (f, k, push_symbol)
              (
                e ∙ sym (select_if-last (named n) symbols s ∙ rw f refl),
                (x, m),
                IsBefore-push n s groups after before,
                push_symbol-IsGrouped symbols s groups (λ t i h. elsewhere f (has t i h)) rest,
              )
      ]
    ]

-- A symbol's group is there once it is pushed, and no group goes.
HasGroup-push :
    (name : Text) (s : SymbolInfo) (groups : Groups)
    → (name ≡ s.name) ⊎ HasGroup name groups
    → HasGroup name (push_symbol s groups)
unfolding push_symbol
HasGroup-push name s [] h = elim h [
  | inl e ↦ (s ∷ [], Memᴰ.head (ap (λ z. (z, s ∷ [])) e))
  | inr (g, m) ↦ absurd (Memᴰ.not-nil m)
]
HasGroup-push name s ((n, group) ∷ groups) h = elim (Bool-cases (text_eq s.name n)) [
  | inl t ↦ rw t (elim h [
    | inl e ↦ (
      group ++ s ∷ [],
      Memᴰ.head (ap (λ z. (z, group ++ s ∷ [])) (e ∙ (text_eq_iff s.name n).0 t)),
    )
    | inr (g, m) ↦ elim (Memᴰ.cases_cons m) [
      | inl e ↦ (group ++ s ∷ [], Memᴰ.head (ap (λ z. (z.0, group ++ s ∷ [])) e))
      | inr m' ↦ (g, Memᴰ.tail m')
    ]
  ])
  | inr f ↦ rw f (elim (Bool-cases (text_lt s.name n)) [
    | inl t ↦ rw t (elim h [
      | inl e ↦ (s ∷ [], Memᴰ.head (ap (λ z. (z, s ∷ [])) e))
      | inr (g, m) ↦ (g, Memᴰ.tail m)
    ])
    | inr k ↦ rw k (elim h [
      | inl e ↦ let (g, m) = HasGroup-push name s groups (inl e) in (g, Memᴰ.tail m)
      | inr (g, m) ↦ elim (Memᴰ.cases_cons m) [
        | inl e ↦ (g, Memᴰ.head e)
        | inr m' ↦ let (g, m) = HasGroup-push name s groups (inr (g, m')) in (g, Memᴰ.tail m)
      ]
    ])
  ])
]

-- Every symbol has its group.
abbrev pub HasAll : List SymbolInfo → Groups → Type 0
HasAll symbols groups = (s : SymbolInfo) → Memᴰ s symbols → HasGroup s.name groups

group_from-IsGrouped :
    (seen symbols : List SymbolInfo) (groups : Groups)
    → IsGrouped seen groups
    → HasAll seen groups
    → IsGrouped (seen ++ symbols) (group_from groups symbols)
      × HasAll (seen ++ symbols) (group_from groups symbols)
unfolding group_from
group_from-IsGrouped seen [] groups g has =
    subst (λ z. IsGrouped z groups × HasAll z groups) (sym (append-nil seen)) (g, has)
group_from-IsGrouped seen (s ∷ symbols) groups g has =
    subst
      (λ z.
        IsGrouped z (group_from (push_symbol s groups) symbols)
        × HasAll z (group_from (push_symbol s groups) symbols))
      (append_assoc seen (s ∷ []) symbols)
      (group_from-IsGrouped (seen ++ s ∷ []) symbols (push_symbol s groups)
        (push_symbol-IsGrouped seen s groups
          (λ t m h. subst (λ z. HasGroup z groups) ((text_eq_iff t.name s.name).0 h) (has t m)) g)
        (λ t m. HasGroup-push t.name s groups (elim (Memᴰ.append_cases seen m) [
          | inl old ↦ inr (has t old)
          | inr new ↦ inl (ap (λ z. z.name) (Memᴰ.eq_of_singleton new))
        ])))

pub groups-IsGrouped :
    (symbols : List SymbolInfo)
    → IsGrouped symbols (group_from [] symbols) × HasAll symbols (group_from [] symbols)
groups-IsGrouped symbols = group_from-IsGrouped [] symbols [] tt (λ s m. absurd (Memᴰ.not-nil m))
