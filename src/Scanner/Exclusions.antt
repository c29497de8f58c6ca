-- ===== src/Scanner/Exclusions.antt =====
-- The exclusions of a scan: remy-cc/scanner-core/src/config.rs, and the walk that asks for them,
-- remy-cc/scanner-core/src/discovery.rs.
pub mod Walk
use remy_cc.Prelude.{
  with_slashes, ℕ, Bool, true, false, not, ◌&&◌, ◌||◌, Option, none, some, List, [], ◌∷◌, ◌++◌,
  Text, codes, text_eq, any_if, if◌then◌else◌, ◌==◌,
}
use remy_cc.Paths.{split_slash, slash, join}
use remy_cc.Scanner.Fnmatch.{fnmatch}

unfoldable pub last_part : List Text → Text
last_part [] = []
last_part (part ∷ []) = part
last_part (_ ∷ p ∷ parts) = last_part (p ∷ parts)

unfoldable pub ends_with_slash : Text → Bool
ends_with_slash [] = false
ends_with_slash (c ∷ []) = c == slash
ends_with_slash (_ ∷ c ∷ cs) = ends_with_slash (c ∷ cs)

-- `trim_end_matches('/')`
unfoldable pub trim_slashes : Text → Text
trim_slashes [] = []
trim_slashes (c ∷ cs) = elim (trim_slashes cs) [
  | [] ↦ if c == slash then [] else c ∷ []
  | d ∷ ds ↦ c ∷ d ∷ ds
]

-- `strip_prefix("**/")`
unfoldable pub strip_stars : Text → Option Text
strip_stars (a ∷ b ∷ c ∷ rest) =
    if (a == b'*') && ((b == b'*') && (c == slash)) then some rest else none
strip_stars _ = none

abbrev pub is_match : Option Bool → Bool
is_match none = false
is_match (some b) = b

-- The directories above a file, each as its own name and its path; `above` are the parts before.
unfoldable pub any_ancestor : (Text → Text → Bool) → List Text → List Text → Bool
unfolding join
any_ancestor test above [] = false
any_ancestor test above (part ∷ []) = false
any_ancestor test above (part ∷ p ∷ parts) =
    test part (join (above ++ part ∷ [])) || any_ancestor test (above ++ part ∷ []) (p ∷ parts)

-- The target and std's lower case, as `fnmatch` takes them.
module _ (windows : Bool) (to_lowercase : Text → Text) where
  unfoldable pub matches_exclusion : Text → Text → Bool
  unfolding fnmatch strip_stars
  matches_exclusion candidate pattern =
      if is_match (fnmatch windows to_lowercase candidate pattern)
      then true
      else elim (strip_stars pattern) [
        | none ↦ false
        | some stripped ↦ is_match (fnmatch windows to_lowercase candidate stripped)
      ]

  -- One pattern against a name and the path that it ends.
  unfoldable pub hits : Text → Text → Text → Bool
  unfolding matches_exclusion trim_slashes
  hits name path pattern =
      matches_exclusion name (trim_slashes pattern) || matches_exclusion path (trim_slashes pattern)

  unfoldable pub excludes_entry : Text → Text → Bool → Text → Bool
  unfolding ends_with_slash hits
  excludes_entry basename rel_path is_dir pattern =
      if ends_with_slash pattern && not is_dir then false else hits basename rel_path pattern

  unfoldable pub is_excluded : List Text → Text → Bool → Bool
  unfolding split_slash last_part any_if excludes_entry
  is_excluded exclusions rel_path is_dir =
      if text_eq rel_path (codes ".")
      then false
      else any_if (excludes_entry (last_part (split_slash rel_path)) rel_path is_dir) exclusions

  unfoldable pub excludes_path : List Text → Text → Text → Bool
  unfolding ends_with_slash any_ancestor hits last_part
  excludes_path parts rel_path pattern =
      if ends_with_slash pattern
      then any_ancestor (λ segment cumulative. hits segment cumulative pattern) [] parts
      else hits (last_part parts) rel_path pattern

  unfoldable pub is_path_excluded : List Text → Text → Bool
  unfolding with_slashes split_slash any_if excludes_path
  is_path_excluded exclusions path =
      let rel_path = with_slashes path in
      any_if (excludes_path (split_slash rel_path) rel_path) exclusions

  -- Whether the walk passes a file over: a directory above it is pruned, or the file itself is.
  unfoldable pub passes_over : List Text → List Text → Bool
  unfolding any_ancestor is_excluded join
  passes_over exclusions parts =
      any_ancestor (λ name rel. is_excluded exclusions rel true) [] parts
      || is_excluded exclusions (join parts) false
