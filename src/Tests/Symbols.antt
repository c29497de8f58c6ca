-- ===== src/Tests/Symbols.antt =====
-- The choice of symbols at two definitions of one name.
use remy_cc.Prelude.{
  ℕ, true, false, ◌≡◌, refl, some, none, [], ◌∷◌, List, codes, Memᴰ, Text, order_by, insert_by,
  then_with, cmp_nat, cmp_bool, cmp_list, cmp_text, text_eq, text_lt, sorted_set, insert_text,
  select_if, subst, sym,
}
use remy_cc.Scanner.Selection.{
  SymbolInfo, SelectedOccurrence, select_symbols, duplicate_definition,
  max_source_extent_then_position, group_from, push_symbol, select_groups, select_group,
  sort_by_key, stable_key_cmp, source_extent_cmp, extent_span, normalize_signature, split_spaces,
  is_python_re_space, add_char, join_spaces, classify, choose, best_from, occurrences_from,
}
use remy_cc.Scanner.Selection.Canonical.{IsSelection, select_symbols-IsSelection}
use remy_cc.Scanner.Selection.Marked.{select_symbols-Marks}

abbrev definition : ℕ → ℕ → Text → SymbolInfo
definition line last args = record {
  name = codes "f";
  args = args;
  sym_type = codes "function";
  lineno = line;
  source_segment = codes "int f";
  end_lineno = some last;
  docstring = none;
  bases = none;
  hash_source_segment = none;
}

abbrev twice : List SymbolInfo
twice = definition 2 2 (codes "()") ∷ definition 10 13 (codes "()") ∷ []

select_symbols-IsSelection_example : IsSelection twice (select_symbols twice).canonical_symbols
select_symbols-IsSelection_example = select_symbols-IsSelection twice

abbrev longest : SelectedOccurrence
longest = record {
  symbol = definition 10 13 (codes "()");
  occurrence_index = 1;
  is_canonical = true;
  conflict_kind = duplicate_definition;
  selection_reason = max_source_extent_then_position;
}

abbrev shortest : SelectedOccurrence
shortest = record {
  symbol = definition 2 2 (codes "()");
  occurrence_index = 0;
  is_canonical = false;
  conflict_kind = duplicate_definition;
  selection_reason = max_source_extent_then_position;
}

twice_run : (select_symbols twice).occurrences ≡ shortest ∷ longest ∷ []
unfolding select_symbols group_from push_symbol select_groups select_group sort_by_key
    stable_key_cmp source_extent_cmp extent_span normalize_signature split_spaces is_python_re_space
    add_char join_spaces classify choose best_from occurrences_from order_by insert_by then_with
    cmp_nat cmp_bool cmp_list cmp_text text_eq text_lt sorted_set insert_text select_if
twice_run = refl

longest_recorded : Memᴰ longest (select_symbols twice).occurrences
longest_recorded = subst (λ os. Memᴰ longest os) (sym twice_run) (Memᴰ.tail (Memᴰ.head refl))

select_symbols-Marks_example :
    Memᴰ longest.symbol twice
    × (longest.is_canonical ≡ true → Memᴰ longest.symbol (select_symbols twice).canonical_symbols)
select_symbols-Marks_example = select_symbols-Marks twice longest longest_recorded
