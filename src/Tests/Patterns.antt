-- ===== src/Tests/Patterns.antt =====
-- Patterns and symbols of the scanner at concrete inputs.
use remy_cc.Prelude.{
  map, with_slashes, select_if, ◌++◌, Bool, true, false, ◌≡◌, refl, some, codes, ◌↔◌, any_if,
}
use remy_cc.Prelude.{List, [], ◌∷◌, Text, Memᴰ, ◌⊎◌, text_eq}
use remy_cc.Paths.{join, split_slash, cons_first, piece, first_piece, is_absolute}
use remy_cc.Paths.Names.{IsName}
use remy_cc.Scanner.Exclusions.{
  passes_over, any_ancestor, is_excluded, excludes_entry, hits, matches_exclusion, trim_slashes,
  strip_stars, ends_with_slash, last_part, is_path_excluded, excludes_path,
}
use remy_cc.Scanner.Exclusions.Walk.{has_backslash, HitsAbove, passes_over_iff}
use remy_cc.Scanner.Config.{
  ScanConfig, is_filled, trim_start, trim_end, trim, is_whitespace, strip_return, lines_from,
  strip_prefix, split_once, split, layer_patterns, add_layer, read_layer, read_line, parse_lines,
  parse, names_segment, has_layer, first_layer, match_file_to_layer,
}
use remy_cc.Scanner.Config.Words.{IsWord}
use remy_cc.Scanner.Config.Printed.{AllPatterns, AllLayers, print, parse-print}
use remy_cc.Scanner.Config.Layers.{Places, match_file_to_layer-Places}
use remy_cc.Scanner.Hashes.{
  translate_newlines, translate_from, symbol_hash, md5_hex, as_bytes, bytes_of, hex,
  is_python_whitespace,
}
use remy_cc.Scanner.Hashes.Newlines.{
  newline_for, replace_pairs, translate_newlines-replace, symbol_hash-translate_newlines,
}
use remy_cc.Scanner.Language.{ts, resolve, language_id, from_language_id}
use remy_cc.Scanner.Language.Longest.{Resolves, resolve-Resolves, from_language_id_iff}
use remy_cc.Scanner.Fnmatch.{
  fnmatch, fnmatchcase, tokenize, tokenize_from, next_tok, push_star, ends_in_star, parse_class,
  class_body, body_length, close_index, class_ranges, class_matches, in_range, verdict, only_stars,
  drop_one, match_from,
}
use remy_cc.Scanner.Fnmatch.Means.{Means, fnmatchcase-Means}
use remy_cc.Scanner.Fnmatch.Literal.{fnmatchcase_literal}

fnmatchcase-Means_example :
    ((matches : Bool) × (fnmatchcase (codes "a1.c") (codes "a[0-9]*") ≡ some matches))
    × ((fnmatchcase (codes "a1.c") (codes "a[0-9]*") ≡ some true)
        ↔ Means 0 (codes "a[0-9]*") (codes "a1.c"))
fnmatchcase-Means_example = fnmatchcase-Means (codes "a1.c") (codes "a[0-9]*")

fnmatchcase_literal_example :
    (fnmatchcase (codes "a[") (codes "a[") ≡ some true) ↔ (codes "a[" ≡ codes "a[")
unfolding any_if
fnmatchcase_literal_example = fnmatchcase_literal (codes "a[") (codes "a[") refl

class_run : fnmatchcase (codes "a1") (codes "a[0-9]") ≡ some true
unfolding fnmatchcase tokenize tokenize_from next_tok push_star ends_in_star parse_class class_body
    body_length close_index class_ranges class_matches in_range verdict only_stars drop_one
    match_from any_if
class_run = refl

retry_run : fnmatchcase (codes "a.cc") (codes "*.c") ≡ some false
unfolding fnmatchcase tokenize tokenize_from next_tok push_star ends_in_star parse_class class_body
    body_length close_index class_ranges class_matches in_range verdict only_stars drop_one
    match_from any_if
retry_run = refl

resolve-Resolves_example : Resolves (codes "a.hpp") (resolve (codes "a.hpp"))
resolve-Resolves_example = resolve-Resolves (codes "a.hpp")

from_language_id_iff_example :
    (from_language_id (codes "TSParser") ≡ some ts) ↔ (language_id ts ≡ codes "TSParser")
from_language_id_iff_example = from_language_id_iff (codes "TSParser") ts

-- `build` without a slash, and a file of the directory `build`.
abbrev pattern : List Text
pattern = codes "build" ∷ []

abbrev file_parts : List Text
file_parts = codes "build" ∷ codes "x.c" ∷ []

is_name : IsName (codes "build") × IsName (codes "x.c")
unfolding any_if text_eq piece first_piece is_absolute
is_name = (
  record { no_slash = refl; named = refl; first = refl; relative = refl; some_text = refl },
  record { no_slash = refl; named = refl; first = refl; relative = refl; some_text = refl },
)

no_backslash : has_backslash (join file_parts) ≡ false
unfolding any_if join
no_backslash = refl

passes_over_iff_example : (passes_over false (λ t. t) pattern file_parts ≡ true) ↔ (
    (is_path_excluded false (λ t. t) pattern (join file_parts) ≡ true)
    ⊎ ((x : Text) × Memᴰ x pattern
        × (ends_with_slash x ≡ false)
        × HitsAbove false (λ t. t) [] file_parts x))
passes_over_iff_example =
    passes_over_iff false (λ t. t) pattern (codes "build") (codes "x.c" ∷ [])
      (is_name.0, (is_name.1, tt)) no_backslash

pruned_run : passes_over false (λ t. t) pattern file_parts ≡ true
unfolding passes_over any_ancestor is_excluded excludes_entry hits matches_exclusion trim_slashes
    strip_stars ends_with_slash last_part split_slash cons_first join text_eq fnmatch fnmatchcase
    tokenize tokenize_from next_tok push_star ends_in_star parse_class class_matches in_range
    verdict only_stars drop_one match_from any_if
pruned_run = refl

kept_run : is_path_excluded false (λ t. t) pattern (join file_parts) ≡ false
unfolding is_path_excluded excludes_path with_slashes any_ancestor hits matches_exclusion
    trim_slashes strip_stars ends_with_slash last_part split_slash cons_first join text_eq fnmatch
    fnmatchcase tokenize tokenize_from next_tok push_star ends_in_star parse_class class_matches
    in_range verdict only_stars drop_one match_from any_if
kept_run = refl

-- The configuration of one exclusion and one layer.
abbrev small_config : ScanConfig
small_config = record {
  exclusions = codes "dist/" ∷ [];
  layers = record { name = codes "Test Layer"; patterns = codes "test" ∷ codes "spec" ∷ [] } ∷ [];
}

is_word : IsWord b',' (codes "test") × IsWord b',' (codes "spec") × IsWord b'=' (codes "Test Layer")
unfolding is_filled trim_start trim_end is_whitespace any_if
is_word = (
  record { filled = refl; start = refl; ends = refl; no_sep = refl; no_newline = refl },
  record { filled = refl; start = refl; ends = refl; no_sep = refl; no_newline = refl },
  record { filled = refl; start = refl; ends = refl; no_sep = refl; no_newline = refl },
)

clean_patterns : AllPatterns small_config.exclusions
unfolding trim_end is_whitespace any_if
clean_patterns = (refl, refl, tt)

clean_layers : AllLayers small_config.layers
unfolding is_filled
clean_layers = let (a, b, c) = is_word in ((c, refl, (a, (b, tt))), tt)

parse-print_example : parse (print small_config) ≡ small_config
parse-print_example = parse-print small_config clean_patterns clean_layers

match_file_to_layer-Places_example :
    Places
      (split_slash (with_slashes (codes "tests/x.c")))
      small_config.layers
      (match_file_to_layer (λ t. t) small_config.layers (codes "tests/x.c"))
match_file_to_layer-Places_example =
    match_file_to_layer-Places (λ t. t) small_config.layers (codes "tests/x.c")

layer_run :
    (match_file_to_layer (λ t. t) small_config.layers (codes "tests/x.c") ≡ codes "Test Layer")
    × (match_file_to_layer (λ t. t) small_config.layers (codes "src/y.c") ≡ codes "Core")
unfolding match_file_to_layer first_layer has_layer names_segment split_slash cons_first
    with_slashes text_eq any_if
layer_run = (refl, refl)

-- A comment, a carriage return, an exclusion and a layer without patterns.
parse_run :
    parse (codes "# a" ++ 13 ∷ 10 ∷ codes " !*.log " ++ 10 ∷ codes "@layer:Bad= ,")
    ≡ record { exclusions = codes "*.log" ∷ []; layers = [] }
unfolding parse parse_lines read_line read_layer add_layer layer_patterns strip_prefix split_once
    split lines_from strip_return trim trim_start trim_end is_whitespace is_filled any_if select_if
parse_run = refl

-- A text with each of the newlines.
abbrev mixed_lines : Text
mixed_lines = 97 ∷ 13 ∷ 10 ∷ 98 ∷ 13 ∷ 99 ∷ 10 ∷ []

translate_newlines-replace_example :
    translate_newlines mixed_lines ≡ map newline_for (replace_pairs mixed_lines)
translate_newlines-replace_example = translate_newlines-replace mixed_lines

symbol_hash-translate_newlines_example :
    symbol_hash (λ bytes. bytes) (translate_newlines mixed_lines)
    ≡ symbol_hash (λ bytes. bytes) mixed_lines
symbol_hash-translate_newlines_example = symbol_hash-translate_newlines (λ bytes. bytes) mixed_lines

newlines_run : translate_newlines mixed_lines ≡ 97 ∷ 10 ∷ 98 ∷ 10 ∷ 99 ∷ 10 ∷ []
unfolding translate_newlines translate_from any_if
newlines_run = refl

hash_run : symbol_hash (λ bytes. bytes) (97 ∷ 28 ∷ 233 ∷ []) ≡ codes "61c3a9"
unfolding symbol_hash md5_hex as_bytes bytes_of hex is_python_whitespace is_whitespace select_if
    any_if
hash_run = refl
