-- ===== src/Scanner/Fnmatch.antt =====
-- The wildcard patterns of remy-cc/scanner-core/src/fnmatch.rs. An index into the pattern, the tokens
-- or the name is the text from that index on; `tokenize_from` counts the characters a class took.
pub mod Denotes
pub mod Greedy
pub mod Reads
pub mod CharSets
pub mod Classes
pub mod Means
pub mod Literal
use remy_cc.Prelude.{
  ℕ, zero, suc, ◌+◌, ◌*◌, Bool, true, false, not, ◌&&◌, Option, none, some, List, [], ◌∷◌, ◌++◌,
  Text, any_if, if◌then◌else◌, leb, ◌==◌, length, take,
}
use mathlib.Core.Option

pub data Tok : Type 0 where
  star any : Tok
  lit : ℕ → Tok
  class : Bool → List (ℕ × ℕ) → Tok

-- The characters before the first `]`.
unfoldable pub close_index : Text → Option ℕ
close_index [] = none
close_index (c ∷ cs) = elim (c == b']') [ true ↦ some 0 | false ↦ Option.map suc (close_index cs) ]

-- The first character of the body never closes it.
unfoldable pub body_length : Text → Option ℕ
unfolding close_index
body_length [] = none
body_length (c ∷ cs) = Option.map suc (close_index cs)

unfoldable pub class_ranges : Text → List (ℕ × ℕ)
class_ranges [] = []
class_ranges (lo ∷ []) = (lo, lo) ∷ []
class_ranges (lo ∷ d ∷ []) = elim (d == b'-') [
  | true ↦ (lo, lo) ∷ (b'-', b'-') ∷ []
  | false ↦ (lo, lo) ∷ (d, d) ∷ []
]
class_ranges (lo ∷ d ∷ hi ∷ cs) = elim (d == b'-') [
  | true ↦ (lo, hi) ∷ class_ranges cs
  | false ↦ (lo, lo) ∷ class_ranges (d ∷ hi ∷ cs)
]

-- The class whose body starts `before` characters after the `[`, and how many it takes after it.
unfoldable pub class_body : Bool → ℕ → Text → Option (Tok × ℕ)
unfolding body_length class_ranges
class_body negated before body = elim (body_length body) [
  | none ↦ none
  | some n ↦ some (class negated (class_ranges (take n body)), before + n + 1)
]

unfoldable pub parse_class : Text → Option (Tok × ℕ)
unfolding class_body
parse_class [] = none
parse_class (c ∷ cs) = elim (c == b'!') [
  | true ↦ class_body true 1 cs
  | false ↦ class_body false 0 (c ∷ cs)
]

unfoldable pub ends_in_star : List Tok → Bool
ends_in_star [] = false
ends_in_star (star ∷ []) = true
ends_in_star (_ ∷ []) = false
ends_in_star (_ ∷ t ∷ ts) = ends_in_star (t ∷ ts)

unfoldable pub push_star : List Tok → List Tok
unfolding ends_in_star
push_star toks = if ends_in_star toks then toks else toks ++ star ∷ []

-- The tokens after the ones found, and the characters to pass over before the next.
unfoldable pub next_tok : List Tok → ℕ → Text → List Tok × ℕ
unfolding parse_class push_star
next_tok toks c rest =
    if c == b'*'
    then (push_star toks, 0)
    else if c == b'?'
    then (toks ++ any ∷ [], 0)
    else if c == b'['
    then elim (parse_class rest) [
      | some (tok, after) ↦ (toks ++ tok ∷ [], after)
      | none ↦ (toks ++ lit b'[' ∷ [], 0)
    ]
    else (toks ++ lit c ∷ [], 0)

unfoldable pub tokenize_from : List Tok → ℕ → Text → List Tok
unfolding next_tok
tokenize_from toks k [] = toks
tokenize_from toks (suc k) (c ∷ cs) = tokenize_from toks k cs
tokenize_from toks zero (c ∷ cs) =
    let (found, after) = next_tok toks c cs in tokenize_from found after cs

unfoldable pub tokenize : Text → List Tok
unfolding tokenize_from
tokenize pattern = tokenize_from [] 0 pattern

unfoldable pub in_range : ℕ → ℕ × ℕ → Bool
in_range c (lo, hi) = leb lo c && leb c hi

unfoldable pub class_matches : Bool → List (ℕ × ℕ) → ℕ → Bool
unfolding any_if in_range
class_matches negated ranges c =
    let hit = any_if (in_range c) ranges in if negated then not hit else hit

-- What the loop finds at a token and a character of the name.
pub data Verdict : Type 0 where
  opens matched : List Tok → Verdict
  failed : Verdict

unfoldable pub verdict : List Tok → ℕ → Verdict
unfolding class_matches
verdict [] c = failed
verdict (star ∷ ts) c = opens ts
verdict (any ∷ ts) c = matched ts
verdict (lit d ∷ ts) c = if d == c then matched ts else failed
verdict (class negated ranges ∷ ts) c =
    if class_matches negated ranges c then matched ts else failed

unfoldable pub only_stars : List Tok → Bool
only_stars [] = true
only_stars (star ∷ ts) = only_stars ts
only_stars (_ ∷ _) = false

unfoldable pub drop_one : Text → Text
drop_one [] = []
drop_one (_ ∷ cs) = cs

-- The tokens after the last star, and the name from where it stopped taking characters.
abbrev pub Mark : Type 0
Mark = Option (List Tok × Text)

-- The loop of `fnmatchcase`; `none` is a run that is out of fuel.
unfoldable pub match_from : ℕ → List Tok → Text → Mark → Option Bool
unfolding verdict only_stars drop_one
match_from fuel ts [] mark = some (only_stars ts)
match_from zero ts (c ∷ cs) mark = none
match_from (suc fuel) ts (c ∷ cs) mark = elim (verdict ts c) [
  | opens rest ↦ match_from fuel rest (c ∷ cs) (some (rest, c ∷ cs))
  | matched rest ↦ match_from fuel rest cs mark
  | failed ↦ elim mark [
    | none ↦ some false
    | some (rest, name) ↦ match_from fuel rest (drop_one name) (some (rest, drop_one name))
  ]
]

unfoldable pub fnmatchcase : Text → Text → Option Bool
unfolding tokenize match_from
fnmatchcase name pattern =
    let toks = tokenize pattern in
    match_from (length name * suc (length toks) + length toks) toks name none

-- `windows` is the target, and `to_lowercase` is std's.
unfoldable pub fnmatch : Bool → (Text → Text) → Text → Text → Option Bool
unfolding fnmatchcase
fnmatch windows to_lowercase name pattern =
    if windows
    then fnmatchcase (to_lowercase name) (to_lowercase pattern)
    else fnmatchcase name pattern
