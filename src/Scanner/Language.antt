-- ===== src/Scanner/Language.antt =====
-- The languages of a scan and how a file name picks one: remy-cc/scanner-core/src/language.rs.
pub mod Longest
use remy_cc.Prelude.{
  ℕ, ◌≤◌, ◌≡◌, refl, sym, ◌∙◌, ap, subst, ◌⊎◌, inl, inr, ◌↔◌, Bool, true, false, Option, none, some,
  List, [], ◌∷◌, Text, codes, Memᴰ, arith, text_eq, text_eq_iff, Bool-cases, if◌then◌else◌, leb,
  length, mem-cons_cases,
}
use mathlib.Core.Option
use mathlib.Core.List.Memᴰ

pub data Language : Type 0 where
  c_cpp python ts rust : Language

abbrev pub extensions : List (Text × Language)
extensions =
    (codes ".c", c_cpp)
    ∷ (codes ".h", c_cpp)
    ∷ (codes ".cpp", c_cpp)
    ∷ (codes ".hpp", c_cpp)
    ∷ (codes ".cc", c_cpp)
    ∷ (codes ".cxx", c_cpp)
    ∷ (codes ".hh", c_cpp)
    ∷ (codes ".hxx", c_cpp)
    ∷ (codes ".py", python)
    ∷ (codes ".ts", ts)
    ∷ (codes ".tsx", ts)
    ∷ (codes ".rs", rust)
    ∷ []

-- `str::ends_with`
unfoldable pub ends_with : Text → Text → Bool
unfolding text_eq
ends_with [] ext = text_eq [] ext
ends_with (c ∷ cs) ext = if text_eq (c ∷ cs) ext then true else ends_with cs ext

abbrev pub Best : Type 0
Best = Option (Text × Language)

-- A longer extension, or one of a length that is not there yet, replaces the best one.
unfoldable pub better : Best → Text × Language → Best
better none entry = some entry
better (some (prev, l)) (ext, language) =
    if leb (length ext) (length prev) then some (prev, l) else some (ext, language)

unfoldable pub resolve_from : Text → Best → List (Text × Language) → Best
unfolding ends_with better
resolve_from filename best [] = best
resolve_from filename best ((ext, language) ∷ rest) =
    resolve_from filename (if ends_with filename ext then better best (ext, language) else best)
      rest

unfoldable pub resolve : Text → Option Language
unfolding resolve_from
resolve filename = Option.map (λ e. e.1) (resolve_from filename none extensions)

unfoldable pub language_id : Language → Text
language_id c_cpp = codes "CCppParser"
language_id python = codes "PythonParser"
language_id ts = codes "TSParser"
language_id rust = codes "RustParser"

unfoldable pub from_language_id : Text → Option Language
unfolding text_eq
from_language_id id =
    if text_eq id (codes "CCppParser")
    then some c_cpp
    else if text_eq id (codes "PythonParser")
    then some python
    else if text_eq id (codes "TSParser")
    then some ts
    else if text_eq id (codes "RustParser")
    then some rust
    else none
