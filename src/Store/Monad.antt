-- ===== src/Store/Monad.antt =====
-- The tables of the state database, and programs over them (remy-cc/src/state.rs, `StateStore`).
pub mod Steps
pub mod Atomic
use Prim.Native.Nat.{max}
use remy_cc.Prelude.{
  ℕ, ◌+◌, ◌^◌, Bool, Option, none, some, List, [], ◌∷◌, ◌++◌, ltb, ◌==◌, if◌then◌else◌, count_if,
  update_if, find_if, select_if,
}
use remy_cc.Host.{Reading}
use remy_cc.Job.{
  Result, ok, err, StateError, corrupt, clock_before_epoch, clock_exceeds_integer, JobRow,
  ProjectRow, PublishedProvider,
}

pub record Store : Type 0 where
  pub projects : List ProjectRow
  pub jobs : List JobRow
  pub published : Option PublishedProvider

-- A program returns its result and the tables it leaves, also where it fails.
abbrev pub M : Type 0 → Type 0
M A = Store → Result A × Store

abbrev pub bind_from : {A B : Type 0} → Result A × Store → (A → M B) → Result B × Store
bind_from (ok a, s) f = f a s
bind_from (err e, s) f = (err e, s)

infixl 5 ◌>>=◌ ◌>>◌
unfoldable pub ◌>>=◌ : {A B : Type 0} → M A → (A → M B) → M B
◌>>=◌ m f s = bind_from (m s) f

unfoldable pub ◌>>◌ : {A B : Type 0} → M A → M B → M B
◌>>◌ m k s = bind_from (m s) (λ _. k)

unfoldable pub return : {A : Type 0} → A → M A
return a s = (ok a, s)

unfoldable pub throw : {A : Type 0} → StateError → M A
throw e s = (err e, s)

unfoldable pub lift : {A : Type 0} → Result A → M A
lift r s = (r, s)

-- Dropping a transaction that was not committed rolls it back.
abbrev pub settle : {A : Type 0} → Store → Result A × Store → Result A × Store
settle s (ok a, s') = (ok a, s')
settle s (err e, s') = (err e, s)

unfoldable pub transaction : {A : Type 0} → M A → M A
transaction m s = settle s (m s)

-- `SELECT … FROM jobs WHERE p`, of one row and of all.
unfoldable pub query_job : (JobRow → Bool) → M (Option JobRow)
query_job p s = (ok (find_if p s.jobs), s)

unfoldable pub query_jobs : (JobRow → Bool) → M (List JobRow)
query_jobs p s = (ok (select_if p s.jobs), s)

unfoldable pub query_project : (ProjectRow → Bool) → M (Option ProjectRow)
query_project p s = (ok (find_if p s.projects), s)

-- `UPDATE jobs SET f WHERE p`, with the number of rows changed.
unfoldable pub update_jobs : (JobRow → Bool) → (JobRow → JobRow) → M ℕ
update_jobs p f s = (ok (count_if p s.jobs), record s { jobs = update_if p f s.jobs })

-- The id of a new row of an `INTEGER PRIMARY KEY` is one above the largest.
unfoldable pub next_job_id : List JobRow → ℕ
next_job_id [] = 1
next_job_id (r ∷ rs) = max (r.id + 1) (next_job_id rs)

unfoldable pub next_project_id : List ProjectRow → ℕ
next_project_id [] = 1
next_project_id (p ∷ ps) = max (p.id + 1) (next_project_id ps)

-- `INSERT INTO jobs`, with `last_insert_rowid()`.
unfoldable pub insert_job : (ℕ → JobRow) → M ℕ
insert_job row s = let id = next_job_id s.jobs in (ok id, record s { jobs = s.jobs ++ row id ∷ [] })

abbrev pub has_id : ℕ → JobRow → Bool
has_id i r = r.id == i

abbrev pub has_project_id : ℕ → ProjectRow → Bool
has_project_id i p = p.id == i

-- `StateStore::now_millis`
unfoldable pub now_millis : Reading → Result ℕ
now_millis none = err (corrupt clock_before_epoch)
now_millis (some millis) =
    if ltb millis (2 ^ 63) then ok millis else err (corrupt clock_exceeds_integer)

-- A proof that runs a program names this one.
unfoldable pub programs : Unit {0}
unfolding ◌>>=◌ ◌>>◌ return throw lift transaction query_job query_jobs query_project update_jobs
    insert_job
programs = tt
