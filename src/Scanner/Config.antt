-- ===== src/Scanner/Config.antt =====
-- The configuration of a scan as a text: remy-cc/scanner-core/src/config.rs, with std's lines, trim,
-- strip_prefix, split_once and split written out on texts.
pub mod Trims
pub mod Words
pub mod Layers
pub mod Printed
use remy_cc.Prelude.{
  ℕ, Bool, true, false, not, ◌&&◌, ◌||◌, Option, none, some, List, [], ◌∷◌, ◌++◌, map, Text, codes,
  select_if, text_eq, any_if, if◌then◌else◌, leb, ◌==◌, with_slashes,
}
use remy_cc.Paths.{split_slash}

-- `char::is_whitespace`
unfoldable pub is_whitespace : ℕ → Bool
is_whitespace c =
    (leb 9 c && leb c 13)
    || any_if (λ w. c == w) (32 ∷ 133 ∷ 160 ∷ 5760 ∷ 8232 ∷ 8233 ∷ 8239 ∷ 8287 ∷ 12288 ∷ [])
    || (leb 8192 c && leb c 8202)

unfoldable pub trim_start : Text → Text
trim_start [] = []
trim_start (c ∷ cs) = if is_whitespace c then trim_start cs else c ∷ cs

unfoldable pub trim_end : Text → Text
trim_end [] = []
trim_end (c ∷ cs) = elim (trim_end cs) [
  | [] ↦ if is_whitespace c then [] else c ∷ []
  | d ∷ ds ↦ c ∷ d ∷ ds
]

unfoldable pub trim : Text → Text
unfolding trim_start trim_end
trim s = trim_end (trim_start s)

-- A line that ended in a newline, without a carriage return before it.
unfoldable pub strip_return : Text → Text
strip_return [] = []
strip_return (c ∷ []) = if c == 13 then [] else c ∷ []
strip_return (c ∷ d ∷ ds) = c ∷ strip_return (d ∷ ds)

-- `lines`; `line` is what has been read of the current one.
unfoldable pub lines_from : Text → Text → List Text
unfolding strip_return
lines_from [] [] = []
lines_from [] (d ∷ line) = (d ∷ line) ∷ []
lines_from (c ∷ cs) line =
    let next = lines_from cs [] in
    let longer = lines_from cs (line ++ c ∷ []) in
    if c == 10 then strip_return line ∷ next else longer

unfoldable pub strip_prefix : Text → Text → Option Text
strip_prefix [] s = some s
strip_prefix (p ∷ ps) [] = none
strip_prefix (p ∷ ps) (c ∷ cs) = let rest = strip_prefix ps cs in if p == c then rest else none

abbrev pub cons_before : ℕ → Option (Text × Text) → Option (Text × Text)
cons_before c none = none
cons_before c (some (before, after)) = some (c ∷ before, after)

unfoldable pub split_once : ℕ → Text → Option (Text × Text)
split_once sep [] = none
split_once sep (c ∷ cs) =
    let rest = split_once sep cs in if c == sep then some ([], cs) else cons_before c rest

abbrev pub cons_piece : ℕ → List Text → List Text
cons_piece c [] = (c ∷ []) ∷ []
cons_piece c (p ∷ ps) = (c ∷ p) ∷ ps

unfoldable pub split : ℕ → Text → List Text
split sep [] = [] ∷ []
split sep (c ∷ cs) = let rest = split sep cs in if c == sep then [] ∷ rest else cons_piece c rest

pub record LayerDef : Type 0 where
  pub name : Text
  pub patterns : List Text

pub record ScanConfig : Type 0 where
  pub exclusions : List Text
  pub layers : List LayerDef

unfoldable pub is_filled {ℓ} : {A : Type ℓ} → List A → Bool
is_filled [] = false
is_filled (_ ∷ _) = true

unfoldable pub layer_patterns : Text → List Text
unfolding split trim select_if is_filled
layer_patterns patterns_str = select_if is_filled (map trim (split b',' patterns_str))

unfoldable pub add_layer : ScanConfig → Text → List Text → ScanConfig
unfolding is_filled
add_layer config name patterns =
    if is_filled name && is_filled patterns
    then record config {
      layers = config.layers ++ record { name = name; patterns = patterns } ∷ [];
    }
    else config

-- The line behind `@layer:`.
unfoldable pub read_layer : ScanConfig → Text → ScanConfig
unfolding split_once add_layer layer_patterns trim
read_layer config rest = elim (split_once b'=' rest) [
  | none ↦ config
  | some (name, patterns_str) ↦ add_layer config (trim name) (layer_patterns patterns_str)
]

unfoldable pub read_line : ScanConfig → Text → ScanConfig
unfolding strip_prefix read_layer
read_line config [] = config
read_line config (c ∷ cs) =
    if c == b'#'
    then config
    else if c == b'!'
    then record config { exclusions = config.exclusions ++ cs ∷ [] }
    else elim (strip_prefix (codes "@layer:") (c ∷ cs)) [
      | none ↦ config
      | some rest ↦ read_layer config rest
    ]

unfoldable pub parse_lines : ScanConfig → List Text → ScanConfig
unfolding read_line trim
parse_lines config [] = config
parse_lines config (raw ∷ rest) = parse_lines (read_line config (trim raw)) rest

unfoldable pub parse : Text → ScanConfig
unfolding parse_lines lines_from
parse content = parse_lines (record { exclusions = []; layers = [] }) (lines_from content [])

unfoldable pub names_segment : Text → Text → Bool
unfolding text_eq
names_segment segment pattern = text_eq segment pattern || text_eq segment (pattern ++ codes "s")

unfoldable pub has_layer : List Text → LayerDef → Bool
unfolding names_segment any_if
has_layer segments layer =
    any_if (λ segment. any_if (names_segment segment) layer.patterns) segments

unfoldable pub first_layer : List Text → List LayerDef → Text
unfolding has_layer
first_layer segments [] = codes "Core"
first_layer segments (layer ∷ layers) =
    if has_layer segments layer then layer.name else first_layer segments layers

-- std's lower case, as `fnmatch` takes it.
unfoldable pub match_file_to_layer : (Text → Text) → List LayerDef → Text → Text
unfolding first_layer split_slash with_slashes
match_file_to_layer to_lowercase layers rel_path =
    first_layer (split_slash (to_lowercase (with_slashes rel_path))) layers
