-- ===== src/Scanner/Config/Layers.antt =====
-- The layer of a file (remy-cc/scanner-core/src/config.rs, `ScanConfig::match_file_to_layer`).
use remy_cc.Prelude.{
  ◌≡◌, sym, ◌∙◌, ◌⊎◌, inl, inr, ◌↔◌, true, List, [], ◌∷◌, ◌++◌, Text, codes, Memᴰ, any_if,
  any_if_iff, or_iff, text_eq, text_eq_iff, Bool-cases, with_slashes,
}
use remy_cc.Paths.{split_slash}
use remy_cc.Scanner.Config.{LayerDef, names_segment, has_layer, first_layer, match_file_to_layer}

-- A segment is a pattern of the layer, or its plural.
abbrev pub Holds : List Text → LayerDef → Type 0
Holds segments layer =
    (segment : Text) × Memᴰ segment segments
    × (pattern : Text) × Memᴰ pattern layer.patterns
    × ((segment ≡ pattern) ⊎ (segment ≡ pattern ++ codes "s"))

names_segment_iff :
    (segment pattern : Text)
    → (names_segment segment pattern ≡ true)
      ↔ ((segment ≡ pattern) ⊎ (segment ≡ pattern ++ codes "s"))
unfolding names_segment
names_segment_iff segment pattern =
    let either = or_iff (text_eq segment pattern) (text_eq segment (pattern ++ codes "s")) in
    let same = text_eq_iff segment pattern in
    let plural = text_eq_iff segment (pattern ++ codes "s") in
    (
      λ h. elim (either.0 h) [ inl t ↦ inl (same.0 t) | inr t ↦ inr (plural.0 t) ],
      λ h. either.1 (elim h [ inl e ↦ inl (same.1 e) | inr e ↦ inr (plural.1 e) ]),
    )

has_layer_iff :
    (segments : List Text) (layer : LayerDef)
    → (has_layer segments layer ≡ true) ↔ Holds segments layer
unfolding has_layer
has_layer_iff segments layer =
    let outer = any_if_iff (λ segment. any_if (names_segment segment) layer.patterns) segments in
    let inner = λ (s : Text). any_if_iff (names_segment s) layer.patterns in
    (
      λ h.
          let (s, m, t) = outer.0 h in
          let (p, k, u) = (inner s).0 t in (s, m, p, k, (names_segment_iff s p).0 u),
      λ (s, m, p, k, u). outer.1 (s, m, (inner s).1 (p, k, (names_segment_iff s p).1 u)),
    )

-- The first layer that holds the segments gives the name, and `Core` is the name where none does.
pub data Places (segments : List Text) : List LayerDef → Text → Type 0 where
  nowhere : Places segments [] (codes "Core")
  here :
      (layer : LayerDef) (layers : List LayerDef)
      → Holds segments layer
      → Places segments (layer ∷ layers) layer.name
  later :
      (layer : LayerDef) (layers : List LayerDef) (name : Text)
      → ¬ Holds segments layer
      → Places segments layers name
      → Places segments (layer ∷ layers) name

first_layer-Places :
    (segments : List Text) (layers : List LayerDef)
    → Places segments layers (first_layer segments layers)
unfolding first_layer
first_layer-Places segments [] = nowhere
first_layer-Places segments (layer ∷ layers) =
    let holds = has_layer_iff segments layer in
    elim (Bool-cases (has_layer segments layer)) [
      | inl t ↦ rw (t, first_layer) (here layer layers (holds.0 t))
      | inr f ↦
          rw (f, first_layer)
            (later layer layers (first_layer segments layers) (λ h. cc (sym f ∙ holds.1 h))
              (first_layer-Places segments layers))
    ]

-- A file is in the first layer of the configuration that has a pattern which is, alone or with an `s`
-- behind it, a segment of the path in lower case, and in `Core` if there is no such layer.
pub match_file_to_layer-Places :
    (to_lowercase : Text → Text) (layers : List LayerDef) (rel_path : Text)
    → Places
        (split_slash (to_lowercase (with_slashes rel_path)))
        layers
        (match_file_to_layer to_lowercase layers rel_path)
unfolding match_file_to_layer
match_file_to_layer-Places to_lowercase layers rel_path =
    first_layer-Places (split_slash (to_lowercase (with_slashes rel_path))) layers
