-- ===== src/Scanner/Selection.antt =====
-- The choice of one symbol for each name: remy-cc/scanner-core/src/selection.rs. Line numbers are
-- natural numbers.
pub mod Keys
pub mod Groups
pub mod Kinds
pub mod Chosen
pub mod Canonical
pub mod Marked
use remy_cc.Prelude.{
  ℕ, zero, suc, ◌+◌, ◌-◌, Bool, true, false, not, ◌&&◌, ◌||◌, Option, none, some, List, [], ◌∷◌,
  ◌++◌, map, Text, codes, text_eq, if◌then◌else◌, ltb, leb, ◌==◌, length, select_if, sorted_set,
  text_lt, Order, less, equal, greater, then_with, cmp_nat, cmp_bool, cmp_list, cmp_text, order_by,
}

pub record SymbolInfo : Type 0 where
  pub name : Text
  pub args : Text
  pub sym_type : Text
  pub lineno : ℕ
  pub source_segment : Text
  pub end_lineno : Option ℕ
  pub docstring : Option Text
  pub bases : Option (List Text)
  pub hash_source_segment : Option Text

-- `char::is_whitespace`
abbrev pub is_whitespace : ℕ → Bool
is_whitespace c =
    (leb 9 c && leb c 13)
    || (c == 32)
    || (c == 0x85)
    || (c == 0xa0)
    || (c == 0x1680)
    || (leb 0x2000 c && leb c 0x200a)
    || (c == 0x2028)
    || (c == 0x2029)
    || (c == 0x202f)
    || (c == 0x205f)
    || (c == 0x3000)

unfoldable pub is_python_re_space : ℕ → Bool
is_python_re_space c = is_whitespace c || (leb 0x1c c && leb c 0x1f)

unfoldable pub add_char : ℕ → List Text → List Text
add_char c [] = (c ∷ []) ∷ []
add_char c (part ∷ parts) = (c ∷ part) ∷ parts

-- `split`
unfoldable pub split_spaces : Text → List Text
unfolding is_python_re_space add_char
split_spaces [] = [] ∷ []
split_spaces (c ∷ cs) =
    let rest = split_spaces cs in if is_python_re_space c then [] ∷ rest else add_char c rest

abbrev pub is_nonempty : Text → Bool
is_nonempty [] = false
is_nonempty (_ ∷ _) = true

unfoldable pub join_spaces : List Text → Text
join_spaces [] = []
join_spaces (part ∷ []) = part
join_spaces (part ∷ p ∷ parts) = part ++ b' ' ∷ join_spaces (p ∷ parts)

unfoldable pub normalize_signature : Text → Text
unfolding split_spaces select_if join_spaces
normalize_signature args = join_spaces (select_if is_nonempty (split_spaces args))

abbrev pub or_else {ℓ} : {A : Type ℓ} → A → Option A → A
or_else a none = a
or_else a (some b) = b

abbrev pub end_of : SymbolInfo → ℕ
end_of s = or_else s.lineno s.end_lineno

unfoldable pub stable_key_cmp : SymbolInfo → SymbolInfo → Order
unfolding then_with cmp_nat cmp_text cmp_list normalize_signature
stable_key_cmp a b = then_with (cmp_nat a.lineno b.lineno) (
    then_with (cmp_nat (end_of a) (end_of b)) (
      then_with (cmp_text a.name b.name) (
        then_with (cmp_text a.sym_type b.sym_type) (
          then_with (cmp_text (normalize_signature a.args) (normalize_signature b.args)) (
            then_with (cmp_text a.source_segment b.source_segment) (
              then_with (cmp_text (or_else [] a.docstring) (or_else [] b.docstring))
                (cmp_list cmp_text (or_else [] a.bases) (or_else [] b.bases))))))))

unfoldable pub extent_span : SymbolInfo → ℕ
extent_span s = end_of s - s.lineno

unfoldable pub source_extent_cmp : SymbolInfo → SymbolInfo → Order
unfolding then_with cmp_bool cmp_nat extent_span stable_key_cmp
source_extent_cmp a b =
    then_with (cmp_bool (is_nonempty b.source_segment) (is_nonempty a.source_segment)) (
      then_with (cmp_nat (extent_span b) (extent_span a)) (
        then_with (cmp_nat (length b.source_segment) (length a.source_segment))
          (stable_key_cmp a b)))

pub data ConflictKind : Type 0 where
  type_variant signature_variant duplicate_definition : ConflictKind

abbrev pub types_of : List SymbolInfo → List Text
types_of = map (λ s. s.sym_type)

abbrev pub signatures_of : List SymbolInfo → List Text
signatures_of = map (λ s. normalize_signature s.args)

unfoldable pub classify : List SymbolInfo → ConflictKind
unfolding sorted_set normalize_signature
classify symbols =
    if ltb 1 (length (sorted_set (types_of symbols)))
    then type_variant
    else if ltb 1 (length (sorted_set (signatures_of symbols)))
    then signature_variant
    else duplicate_definition

pub data SelectionReason : Type 0 where
  earliest_source_position max_source_extent_then_position : SelectionReason

pub record SelectedOccurrence : Type 0 where
  pub symbol : SymbolInfo
  pub occurrence_index : ℕ
  pub is_canonical : Bool
  pub conflict_kind : ConflictKind
  pub selection_reason : SelectionReason

pub record Selection : Type 0 where
  pub canonical_symbols : List SymbolInfo
  pub occurrences : List SelectedOccurrence

abbrev pub is_less : Order → Bool
is_less less = true
is_less equal = false
is_less greater = false

-- `sort_by(stable_key_cmp)`
unfoldable pub sort_by_key : List SymbolInfo → List SymbolInfo
unfolding order_by stable_key_cmp
sort_by_key = order_by (λ a b. is_less (stable_key_cmp a b))

-- The groups of a `BTreeMap`, by ascending names; a symbol goes to the end of its group.
abbrev pub Groups : Type 0
Groups = List (Text × List SymbolInfo)

unfoldable pub push_symbol : SymbolInfo → Groups → Groups
unfolding text_eq text_lt
push_symbol s [] = (s.name, s ∷ []) ∷ []
push_symbol s ((name, group) ∷ groups) =
    let rest = push_symbol s groups in
    if text_eq s.name name
    then (name, group ++ s ∷ []) ∷ groups
    else if text_lt s.name name
    then (s.name, s ∷ []) ∷ (name, group) ∷ groups
    else (name, group) ∷ rest

unfoldable pub group_from : Groups → List SymbolInfo → Groups
unfolding push_symbol
group_from groups [] = groups
group_from groups (s ∷ symbols) = group_from (push_symbol s groups) symbols

-- The loop over the indices: the best one so far with its symbol, and the next index.
unfoldable pub best_from : ℕ → SymbolInfo → ℕ → List SymbolInfo → ℕ × SymbolInfo
unfolding source_extent_cmp
best_from best symbol i [] = (best, symbol)
best_from best symbol i (s ∷ rest) = elim (is_less (source_extent_cmp s symbol)) [
  | true ↦ best_from i s (suc i) rest
  | false ↦ best_from best symbol (suc i) rest
]

unfoldable pub choose :
    ConflictKind → SymbolInfo → List SymbolInfo → (ℕ × SymbolInfo) × SelectionReason
unfolding best_from
choose signature_variant first rest = ((0, first), earliest_source_position)
choose type_variant first rest = (best_from 0 first 1 rest, max_source_extent_then_position)
choose duplicate_definition first rest = (best_from 0 first 1 rest, max_source_extent_then_position)

unfoldable pub occurrences_from :
    ℕ → ConflictKind → SelectionReason → ℕ → List SymbolInfo → List SelectedOccurrence
occurrences_from selected kind reason i [] = []
occurrences_from selected kind reason i (s ∷ rest) =
    record {
      symbol = s;
      occurrence_index = i;
      is_canonical = i == selected;
      conflict_kind = kind;
      selection_reason = reason;
    }
    ∷ occurrences_from selected kind reason (suc i) rest

-- The canonical symbol of a sorted group and its occurrences; a group is never empty.
unfoldable pub select_group : List SymbolInfo → List SymbolInfo × List SelectedOccurrence
unfolding classify choose occurrences_from
select_group [] = ([], [])
select_group (s ∷ []) = (s ∷ [], [])
select_group (s ∷ t ∷ rest) =
    let kind = classify (s ∷ t ∷ rest) in
    let ((selected, symbol), reason) = choose kind s (t ∷ rest) in
    (symbol ∷ [], occurrences_from selected kind reason 0 (s ∷ t ∷ rest))

unfoldable pub select_groups : Groups → List SymbolInfo × List SelectedOccurrence
unfolding select_group sort_by_key
select_groups [] = ([], [])
select_groups ((name, group) ∷ groups) =
    let (symbols, occurrences) = select_group (sort_by_key group) in
    let (more_symbols, more_occurrences) = select_groups groups in
    (symbols ++ more_symbols, occurrences ++ more_occurrences)

unfoldable pub select_symbols : List SymbolInfo → Selection
unfolding group_from select_groups sort_by_key
select_symbols symbols =
    let (canonical, occurrences) = select_groups (group_from [] symbols) in
    record { canonical_symbols = sort_by_key canonical; occurrences = occurrences }
