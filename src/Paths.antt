-- ===== src/Paths.antt =====
-- The path normalisation of remy-cc/src/state.rs on Unix. `Path::components`, `extension`, `push` and
-- `is_absolute` are std's, written out on texts; what touches the file system comes from the host.
pub mod Names
pub mod Source
use mathlib.Core.List.{reverse}
use remy_cc.Prelude.{
  ℕ, ◌+◌, Bool, true, false, ◌||◌, ◌&&◌, Option, none, some, List, [], ◌∷◌, ◌++◌, map, Text, codes,
  text_eq, any_if, if◌then◌else◌, leb, ◌==◌, not,
}
use remy_cc.Host.{Host, Components, root_dir, cur_dir, parent_dir, normal}
use remy_cc.Job.{
  Result, ok, err, io, invalid_input, filter_not_absolute, project_not_a_directory,
  db_path_not_absolute, db_path_without_parent, file_path_not_relative, file_path_not_normal,
  unsupported_extension,
}

abbrev pub slash : ℕ
slash = b'/'

unfoldable pub cons_first : ℕ → List Text → List Text
cons_first c [] = (c ∷ []) ∷ []
cons_first c (p ∷ ps) = (c ∷ p) ∷ ps

-- The pieces between the slashes.
unfoldable pub split_slash : Text → List Text
split_slash [] = [] ∷ []
split_slash (c ∷ s) =
    let rest = split_slash s in if c == slash then [] ∷ rest else cons_first c rest

unfoldable pub piece : Text → Components
piece p =
    if text_eq p []
    then []
    else if text_eq p (codes ".")
    then []
    else if text_eq p (codes "..")
    then parent_dir ∷ []
    else normal p ∷ []

unfoldable pub pieces : List Text → Components
pieces [] = []
pieces (p ∷ ps) = piece p ++ pieces ps

unfoldable pub first_piece : Text → Components
unfolding piece
first_piece p = if text_eq p (codes ".") then cur_dir ∷ [] else piece p

unfoldable pub relative : List Text → Components
unfolding first_piece pieces
relative [] = []
relative (p ∷ ps) = first_piece p ++ pieces ps

unfoldable pub is_absolute : Text → Bool
is_absolute [] = false
is_absolute (c ∷ _) = c == slash

unfoldable pub components : Text → Components
unfolding split_slash cons_first relative is_absolute
components t = if is_absolute t then root_dir ∷ pieces (split_slash t) else relative (split_slash t)

-- The texts before and after the last dot.
last_dot : Text → Option (Text × Text)
last_dot [] = none
last_dot (c ∷ s) = elim (last_dot s) [
  | some (before, after) ↦ some (c ∷ before, after)
  | none ↦ if c == b'.' then some ([], s) else none
]

extension_after : Option (Text × Text) → Option Text
extension_after none = none
extension_after (some ([], after)) = none
extension_after (some (_ ∷ _, after)) = some after

file_name : Components → Option Text
file_name [] = none
file_name (normal p ∷ []) = some p
file_name (_ ∷ c ∷ cs) = file_name (c ∷ cs)
file_name (_ ∷ []) = none

-- `Path::extension`
unfoldable pub extension : Text → Option Text
unfolding components last_dot extension_after file_name
extension t = elim (file_name (components t)) [
  | none ↦ none
  | some f ↦ extension_after (last_dot f)
]

ascii_lowercase : ℕ → ℕ
ascii_lowercase c = if leb b'A' c && leb c b'Z' then c + 32 else c

abbrev source_extensions : List Text
source_extensions =
    codes "py"
    ∷ codes "c"
    ∷ codes "h"
    ∷ codes "cpp"
    ∷ codes "hpp"
    ∷ codes "cc"
    ∷ codes "cxx"
    ∷ codes "hh"
    ∷ codes "hxx"
    ∷ codes "ts"
    ∷ codes "tsx"
    ∷ codes "rs"
    ∷ []

is_source_extension : Option Text → Bool
unfolding ascii_lowercase any_if
is_source_extension none = false
is_source_extension (some e) = any_if (text_eq (map ascii_lowercase e)) source_extensions

-- The components, if all are normal.
unfoldable pub normal_parts : Components → Option (List Text)
normal_parts [] = some []
normal_parts (normal p ∷ cs) = elim (normal_parts cs) [ none ↦ none | some ps ↦ some (p ∷ ps) ]
normal_parts (_ ∷ cs) = none

-- `parts.join("/")`
unfoldable pub join : List Text → Text
join [] = []
join (p ∷ []) = p
join (p ∷ q ∷ ps) = p ++ (slash ∷ join (q ∷ ps))

unfoldable pub check_extension : Text → Result Text
unfolding extension is_source_extension
check_extension normalized =
    if is_source_extension (extension normalized)
    then ok normalized
    else err (invalid_input unsupported_extension)

unfoldable pub normalize_source_path : Text → Result Text
unfolding components normal_parts join check_extension is_absolute
normalize_source_path value =
    if is_absolute value || text_eq value []
    then err (invalid_input file_path_not_relative)
    else elim (normal_parts (components value)) [
      | none ↦ err (invalid_input file_path_not_normal)
      | some parts ↦ check_extension (join parts)
    ]

-- `PathBuf::push` of one relative component.
ends_with_slash : Text → Bool
ends_with_slash [] = true
ends_with_slash (c ∷ []) = c == slash
ends_with_slash (_ ∷ c ∷ s) = ends_with_slash (c ∷ s)

unfoldable pub push : Text → Text → Text
unfolding ends_with_slash
push base c = if ends_with_slash base then base ++ c else base ++ (slash ∷ c)

-- `for component in suffix.iter().rev()`, where `names` is the reversed suffix.
unfoldable pub push_all : Text → List Text → Text
push_all base [] = base
push_all base (c ∷ cs) = push_all (push base c) cs

module _ (host : Host) where
  open host use {exists, is_dir, canonicalize}

  canonical : Components → Result Text
  canonical p = elim (canonicalize p) [ none ↦ err io | some t ↦ ok t ]

  -- The `while !existing.exists()` loop. The path comes last component first, since each round takes
  -- the last one off; `names` are those taken, in path order.
  pub climb : Components → List Text → Result (Components × List Text)
  climb [] names = if exists [] then ok ([], names) else err (invalid_input db_path_without_parent)
  climb (normal p ∷ rest) names =
      let above = climb rest (p ∷ names) in
      if exists (reverse (normal p ∷ rest)) then ok (reverse (normal p ∷ rest), names) else above
  climb (c ∷ rest) names =
      if exists (reverse (c ∷ rest))
      then ok (reverse (c ∷ rest), names)
      else err (invalid_input db_path_without_parent)

  pub attach : Result (Components × List Text) → Result Text
  unfolding canonical push_all push
  attach (err e) = err e
  attach (ok (existing, names)) = elim (canonical existing) [
    | err e ↦ err e
    | ok base ↦ ok (push_all base names)
  ]

  unfoldable pub normalize_database_path : Text → Result Text
  unfolding climb attach components is_absolute
  normalize_database_path value =
      if is_absolute value
      then attach (climb (reverse (components value)) [])
      else err (invalid_input db_path_not_absolute)

  unfoldable pub normalize_existing_project : Text → Result Text
  unfolding canonical components is_absolute
  normalize_existing_project value =
      if not (is_absolute value) || not (is_dir (components value))
      then err (invalid_input project_not_a_directory)
      else canonical (components value)

  -- `project_key` and `display_path` return their argument on Unix.
  unfoldable pub normalize_project_filter : Text → Result Text
  unfolding canonical components is_absolute
  normalize_project_filter value =
      if not (is_absolute value)
      then err (invalid_input filter_not_absolute)
      else if exists (components value)
      then canonical (components value)
      else ok value
