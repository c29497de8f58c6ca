-- ===== src/Store/Listing/Newest.antt =====
-- What `list` answers: the newest jobs that the filter admits (remy-cc/src/state.rs).
use remy_cc.Prelude.{
  IsStrict, ℕ, ◌≤◌, ◌<◌, Bool, true, ◌≡◌, ◌⊎◌, List, Memᴰ, arith, length, count_if, [], ◌∷◌,
}
use remy_cc.Job.{JobRow}
use remy_cc.Store.Monad.{Store}
use remy_cc.Store.Listing.{newer, clamp_limit}

pub newer-IsStrict : IsStrict newer
unfolding newer
newer-IsStrict = record {
  irrefl = λ a. ground arith;
  asym = λ a b h. ground arith;
  trans = λ a b c h k. ground arith;
}

-- Created before, or at the same time with a smaller id, or the same in both.
abbrev pub IsOlder : JobRow → JobRow → Type 0
IsOlder x y = (x.created_at < y.created_at) ⊎ ((x.created_at ≡ y.created_at) × (x.id ≤ y.id))

abbrev pub NewestFirst : List JobRow → Type 0
NewestFirst [] = Unit {0}
NewestFirst (x ∷ xs) = ((y : JobRow) → Memᴰ y xs → IsOlder y x) × NewestFirst xs

-- The rows that `list` answers with, for an admission test and a limit.
pub record IsNewest (s : Store) (admits : JobRow → Bool) (limit : ℕ) (rows : List JobRow)
    : Type 0 where
  -- between 1 and 200 rows are asked for
  pub bounded : length rows ≤ clamp_limit limit
  pub admitted : (x : JobRow) → Memᴰ x rows → Memᴰ x s.jobs × (admits x ≡ true)
  -- no row is answered more often than it is there
  pub once : (p : JobRow → Bool) → count_if p rows ≤ count_if p s.jobs
  pub sorted : NewestFirst rows
  -- an admitted row is left out only if the answer is full and no row of it is older
  pub newest :
      (x : JobRow)
      → Memᴰ x s.jobs
      → admits x ≡ true
      → Memᴰ x rows
        ⊎ ((length rows ≡ clamp_limit limit) × ((y : JobRow) → Memᴰ y rows → IsOlder x y))
