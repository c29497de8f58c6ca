-- ===== src/Scanner/Config/Words.antt =====
-- Words between commas (remy-cc/scanner-core/src/config.rs, `ScanConfig::parse`).
use remy_cc.Prelude.{
  ℕ, ◌≡◌, refl, sym, ◌∙◌, ap, subst, inl, inr, true, List, [], ◌∷◌, ◌++◌, map, Text, select_if,
  any_if, Bool-cases, ◌==◌,
}
use remy_cc.Scanner.Config.{trim_start, trim_end, trim, split, is_filled, layer_patterns}
use remy_cc.Scanner.Config.Trims.{trim_end-append, Lacks, split-first, split-last}

unfoldable pub join_commas : List Text → Text
join_commas [] = []
join_commas (p ∷ []) = p
join_commas (p ∷ q ∷ ps) = p ++ b',' ∷ join_commas (q ∷ ps)

-- A text without whitespace at its ends that is not empty and lacks a separator and the newline.
pub record IsWord (sep : ℕ) (t : Text) : Type 0 where
  pub filled : is_filled t ≡ true
  pub start : trim_start t ≡ t
  pub ends : trim_end t ≡ t
  pub no_sep : Lacks sep t
  pub no_newline : Lacks 10 t

abbrev pub AllWords : List Text → Type 0
AllWords [] = Unit {0}
AllWords (p ∷ ps) = IsWord b',' p × AllWords ps

pub Lacks-append : (sep : ℕ) (s t : Text) → Lacks sep s → Lacks sep t → Lacks sep (s ++ t)
unfolding any_if
Lacks-append sep [] t h k = k
Lacks-append sep (c ∷ s) t h k = elim (Bool-cases (c == sep)) [
  | inl y ↦ cc (rw y at h)
  | inr n ↦ rw n (Lacks-append sep s t (rw n at h) k)
]

pub trim-word : {sep : ℕ} {t : Text} → IsWord sep t → trim t ≡ t
unfolding trim
trim-word w = ap trim_end w.start ∙ w.ends

-- A text that is trimmed at its end and is not empty.
unfoldable pub Ends : Text → Type 0
Ends t = (d : ℕ) × (ds : Text) × (t ≡ d ∷ ds) × (trim_end (d ∷ ds) ≡ d ∷ ds)

pub Ends-append : (s t : Text) → Ends t → Ends (s ++ t)
unfolding Ends
Ends-append [] t e = e
Ends-append (c ∷ s) t (d, ds, e, h) =
    (c, s ++ d ∷ ds, ap (λ z. c ∷ s ++ z) e, trim_end-append (c ∷ s) d ds h)

pub Ends-word : {sep : ℕ} (t : Text) → IsWord sep t → Ends t
unfolding Ends is_filled
Ends-word [] w = cc (w.filled)
Ends-word (d ∷ ds) w = (d, ds, refl, w.ends)

pub Ends-trim : (t : Text) → Ends t → trim_end t ≡ t
unfolding Ends
Ends-trim t (d, ds, e, h) = subst (λ z. trim_end z ≡ z) (sym e) h

pub join_commas-Ends : (p : Text) (ps : List Text) → AllWords (p ∷ ps) → Ends (join_commas (p ∷ ps))
unfolding join_commas
join_commas-Ends p [] (w, ws) = Ends-word p w
join_commas-Ends p (q ∷ ps) (w, ws) =
    Ends-append p (b',' ∷ join_commas (q ∷ ps))
      (Ends-append (b',' ∷ []) (join_commas (q ∷ ps)) (join_commas-Ends q ps ws))

pub join_commas-Lacks : (ps : List Text) → AllWords ps → Lacks 10 (join_commas ps)
unfolding join_commas any_if
join_commas-Lacks [] ws = refl
join_commas-Lacks (p ∷ []) (w, ws) = w.no_newline
join_commas-Lacks (p ∷ q ∷ ps) (w, ws) =
    Lacks-append 10 p (b',' ∷ join_commas (q ∷ ps)) w.no_newline (join_commas-Lacks (q ∷ ps) ws)

split-join_commas :
    (p : Text) (ps : List Text) → AllWords (p ∷ ps) → split b',' (join_commas (p ∷ ps)) ≡ p ∷ ps
unfolding join_commas
split-join_commas p [] (w, ws) = split-last b',' p w.no_sep
split-join_commas p (q ∷ ps) (w, ws) =
    split-first b',' p (join_commas (q ∷ ps)) w.no_sep ∙ ap (λ z. p ∷ z) (split-join_commas q ps ws)

trims-words : (ps : List Text) → AllWords ps → select_if is_filled (map trim ps) ≡ ps
unfolding select_if
trims-words [] ws = refl
trims-words (p ∷ ps) (w, ws) = rw (trim-word w, w.filled, trims-words ps ws) refl

pub layer_patterns-join_commas :
    (ps : List Text) → is_filled ps ≡ true → AllWords ps → layer_patterns (join_commas ps) ≡ ps
unfolding layer_patterns is_filled
layer_patterns-join_commas [] h ws = cc (h)
layer_patterns-join_commas (p ∷ ps) h ws =
    ap (λ z. select_if is_filled (map trim z)) (split-join_commas p ps ws) ∙ trims-words (p ∷ ps) ws
