-- ===== src/Scanner/Config/Printed.antt =====
-- Reading back a printed configuration (remy-cc/scanner-core/src/config.rs, `ScanConfig::parse`).
use remy_cc.Prelude.{
  ℕ, ◌≡◌, refl, sym, ◌∙◌, ap, true, false, some, List, [], ◌∷◌, ◌++◌, Text, codes, any_if,
}
use mathlib.Core.List.{append_assoc, append-nil}
use remy_cc.Scanner.Config.{
  is_whitespace, trim_end, trim, lines_from, split_once, strip_prefix, is_filled, LayerDef,
  ScanConfig, layer_patterns, add_layer, read_layer, read_line, parse_lines, parse,
}
use remy_cc.Scanner.Config.Trims.{
  trim_end-mark, strip_return-trimmed, trim-trimmed, Lacks, lines_from-line, split_once-first,
}
use remy_cc.Scanner.Config.Words.{
  join_commas, IsWord, AllWords, Ends, Lacks-append, trim-word, Ends-append, Ends-trim,
  join_commas-Ends, join_commas-Lacks, layer_patterns-join_commas,
}

-- The text of a configuration.
abbrev pub layer_line : LayerDef → Text
layer_line layer = codes "@layer:" ++ (layer.name ++ b'=' ∷ join_commas layer.patterns)

unfoldable pub layer_lines : List LayerDef → Text
layer_lines [] = []
layer_lines (layer ∷ layers) = layer_line layer ++ 10 ∷ layer_lines layers

unfoldable pub exclusion_lines : List Text → Text → Text
exclusion_lines [] rest = rest
exclusion_lines (p ∷ ps) rest = (b'!' ∷ p) ++ 10 ∷ exclusion_lines ps rest

unfoldable pub print : ScanConfig → Text
unfolding exclusion_lines layer_lines
print config = exclusion_lines config.exclusions (layer_lines config.layers)

-- A layer with a name and at least one pattern.
abbrev pub IsLayer : LayerDef → Type 0
IsLayer layer = IsWord b'=' layer.name × (is_filled layer.patterns ≡ true) × AllWords layer.patterns

abbrev pub AllLayers : List LayerDef → Type 0
AllLayers [] = Unit {0}
AllLayers (l ∷ ls) = IsLayer l × AllLayers ls

-- An exclusion may be empty, and may start with whitespace.
abbrev pub AllPatterns : List Text → Type 0
AllPatterns [] = Unit {0}
AllPatterns (p ∷ ps) = (trim_end p ≡ p) × Lacks 10 p × AllPatterns ps

add_layer-word :
    (config : ScanConfig) (name : Text) (patterns : List Text)
    → is_filled name ≡ true
    → is_filled patterns ≡ true
    → add_layer config name patterns
      ≡ record config { layers = config.layers ++ record { name = name; patterns = patterns } ∷ [] }
unfolding add_layer
add_layer-word config name patterns h k = rw (h, k, add_layer) refl

read_layer-split :
    (config : ScanConfig) (rest name patterns_str : Text)
    → split_once b'=' rest ≡ some (name, patterns_str)
    → read_layer config rest ≡ add_layer config (trim name) (layer_patterns patterns_str)
unfolding read_layer
read_layer-split config rest name patterns_str e = rw (e, read_layer) refl

read_layer-prefix :
    (config : ScanConfig) (rest : Text)
    → read_line config (codes "@layer:" ++ rest) ≡ read_layer config rest
unfolding read_line strip_prefix
read_layer-prefix config rest = refl

read_line-layer :
    (config : ScanConfig) (layer : LayerDef)
    → IsLayer layer
    → read_line config (layer_line layer) ≡ record config { layers = config.layers ++ layer ∷ [] }
read_line-layer config layer (w, f, ws) =
    let patterns = join_commas layer.patterns in
    read_layer-prefix config (layer.name ++ b'=' ∷ patterns)
    ∙ read_layer-split config (layer.name ++ b'=' ∷ patterns) layer.name patterns
        (split_once-first b'=' layer.name patterns w.no_sep)
    ∙ ap (λ z. add_layer config z (layer_patterns patterns)) (trim-word w)
    ∙ ap (add_layer config layer.name) (layer_patterns-join_commas layer.patterns f ws)
    ∙ add_layer-word config layer.name layer.patterns w.filled f

-- A trimmed line is read as it stands.
parse_lines-line :
    (config : ScanConfig) (c : ℕ) (cs rest : Text)
    → is_whitespace c ≡ false
    → trim_end (c ∷ cs) ≡ c ∷ cs
    → Lacks 10 (c ∷ cs)
    → parse_lines config (lines_from ((c ∷ cs) ++ 10 ∷ rest) [])
      ≡ parse_lines (read_line config (c ∷ cs)) (lines_from rest [])
unfolding parse_lines
parse_lines-line config c cs rest w h n =
    ap (parse_lines config) (lines_from-line (c ∷ cs) [] rest n)
    ∙ ap (λ z. parse_lines (read_line config (trim z)) (lines_from rest []))
        (strip_return-trimmed (c ∷ cs) h)
    ∙ ap (λ z. parse_lines (read_line config z) (lines_from rest [])) (trim-trimmed c cs w h)

patterns-Ends : (ps : List Text) → is_filled ps ≡ true → AllWords ps → Ends (join_commas ps)
unfolding is_filled
patterns-Ends [] h ws = cc (h)
patterns-Ends (p ∷ ps) h ws = join_commas-Ends p ps ws

layer_line-Ends : (layer : LayerDef) → IsLayer layer → Ends (layer_line layer)
layer_line-Ends layer (w, f, ws) =
    Ends-append (codes "@layer:") (layer.name ++ b'=' ∷ join_commas layer.patterns) (
      Ends-append layer.name (b'=' ∷ join_commas layer.patterns)
        (Ends-append (b'=' ∷ []) (join_commas layer.patterns) (patterns-Ends layer.patterns f ws)))

layer_line-Lacks : (layer : LayerDef) → IsLayer layer → Lacks 10 (layer_line layer)
unfolding any_if
layer_line-Lacks layer (w, f, ws) =
    Lacks-append 10 (codes "@layer:") (layer.name ++ b'=' ∷ join_commas layer.patterns) refl (
      Lacks-append 10 layer.name (b'=' ∷ join_commas layer.patterns) w.no_newline
        (join_commas-Lacks layer.patterns ws))

parse_lines-layers :
    (config : ScanConfig) (layers : List LayerDef)
    → AllLayers layers
    → parse_lines config (lines_from (layer_lines layers) [])
      ≡ record config { layers = config.layers ++ layers }
unfolding layer_lines parse_lines lines_from is_whitespace any_if
parse_lines-layers config [] ls =
    ap (λ z. record config { layers = z }) (sym (append-nil config.layers))
parse_lines-layers config (layer ∷ layers) (l, ls) =
    let next = record config { layers = config.layers ++ layer ∷ [] } in
    parse_lines-line config b'@'
      (codes "layer:" ++ (layer.name ++ b'=' ∷ join_commas layer.patterns)) (layer_lines layers)
      refl (Ends-trim (layer_line layer) (layer_line-Ends layer l)) (layer_line-Lacks layer l)
    ∙ ap (λ z. parse_lines z (lines_from (layer_lines layers) [])) (read_line-layer config layer l)
    ∙ parse_lines-layers next layers ls
    ∙ ap (λ z. record config { layers = z }) (append_assoc config.layers (layer ∷ []) layers)

read_line-exclusion :
    (config : ScanConfig) (p : Text)
    → read_line config (b'!' ∷ p) ≡ record config { exclusions = config.exclusions ++ p ∷ [] }
unfolding read_line
read_line-exclusion config p = refl

parse_lines-exclusions :
    (config : ScanConfig) (ps : List Text) (rest : Text)
    → AllPatterns ps
    → parse_lines config (lines_from (exclusion_lines ps rest) [])
      ≡ parse_lines (record config { exclusions = config.exclusions ++ ps }) (lines_from rest [])
unfolding exclusion_lines is_whitespace any_if
parse_lines-exclusions config [] rest h =
    ap (λ z. parse_lines (record config { exclusions = z }) (lines_from rest []))
      (sym (append-nil config.exclusions))
parse_lines-exclusions config (p ∷ ps) rest (t, n, h) =
    let next = record config { exclusions = config.exclusions ++ p ∷ [] } in
    parse_lines-line config b'!' p (exclusion_lines ps rest) refl (trim_end-mark b'!' p refl t) n
    ∙ ap (λ z. parse_lines z (lines_from (exclusion_lines ps rest) []))
        (read_line-exclusion config p)
    ∙ parse_lines-exclusions next ps rest h
    ∙ ap (λ z. parse_lines (record config { exclusions = z }) (lines_from rest []))
        (append_assoc config.exclusions (p ∷ []) ps)

-- A configuration is what `parse` reads from its text, one line for each exclusion and one for each
-- layer, if no text in it has whitespace at an end (an exclusion may start with some) or a newline, the
-- name of a layer is not empty and lacks `=`, and a layer has patterns, none of them empty or with a comma.
pub parse-print :
    (config : ScanConfig)
    → AllPatterns config.exclusions
    → AllLayers config.layers
    → parse (print config) ≡ config
unfolding parse print
parse-print config ps ls =
    let empty : ScanConfig = record { exclusions = []; layers = [] } in
    parse_lines-exclusions empty config.exclusions (layer_lines config.layers) ps
    ∙ parse_lines-layers (record empty { exclusions = config.exclusions }) config.layers ls
