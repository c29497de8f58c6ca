-- ===== src/Store/Valid.antt =====
-- The schema of the state database (remy-cc/src/state.rs, `JOBS_DDL_V2`, `JOBS_INDEXES`,
-- `PUBLISHED_PROVIDER_DDL` and `PROJECTS_DDL`): the checks of a row, and what the keys and indexes ask of the tables.
pub mod Update
pub mod Insert
pub mod Rules
pub mod Transitions
pub mod Calm
pub mod Projects
pub mod Submits
pub mod FullScans
pub mod Claims
pub mod Completes
pub mod Recovers
pub mod RecoverLoops
use remy_cc.Prelude.{
  ℕ, ◌≤◌, Bool, true, false, not, ◌&&◌, ◌||◌, Option, none, some, leb, ◌≡◌, Memᴰ, count_if, find_if,
  Text, codes, text_eq,
}
use remy_cc.Job.{
  JobStatus, pending, running, cancel_requested, succeeded, failed, cancelled, superseded,
  status_eq, JobRow, ProjectRow, PublishedProvider,
}
use remy_cc.Store.Monad.{Store, has_id, has_project_id}
use remy_cc.Store.Submit.{has_key, is_executing}

abbrev pub is_some {ℓ} : {A : Type ℓ} → Option A → Bool
is_some none = false
is_some (some _) = true

-- The check on progress_current and progress_total.
abbrev pub progress_ok : Option ℕ → Option ℕ → Bool
progress_ok current none = true
progress_ok none (some total) = false
progress_ok (some current) (some total) = leb current total

-- The check on started_at and finished_at.
abbrev pub times_ok : JobStatus → Bool → Bool → Bool
times_ok pending started finished = not started && not finished
times_ok running started finished = started && not finished
times_ok cancel_requested started finished = started && not finished
times_ok succeeded started finished = started && finished
times_ok failed started finished = started && finished
times_ok cancelled started finished = finished
times_ok superseded started finished = finished

-- The two checks on result_json and error_json; the second implies the first.
abbrev pub payload_ok : JobStatus → Bool → Bool → Bool
payload_ok succeeded result error = result && not error
payload_ok failed result error = not result && error
payload_ok _ result error = not result && not error

abbrev pub successor_ok : JobStatus → Bool → Bool
successor_ok superseded by = by
successor_ok _ by = not by

-- The check on provider, of both tables that have the column.
unfoldable pub provider_ok : Text → Bool
unfolding text_eq
provider_ok provider = text_eq provider (codes "python") || text_eq provider (codes "rust")

abbrev pub published_ok : Option PublishedProvider → Bool
published_ok none = true
published_ok (some published) = provider_ok published.provider

unfoldable pub checks : JobRow → Bool
checks r =
    provider_ok r.provider
    && progress_ok r.progress_current r.progress_total
    && times_ok r.status (is_some r.started_at) (is_some r.finished_at)
    && payload_ok r.status (is_some r.result_json) (is_some r.error_json)
    && successor_ok r.status (is_some r.superseded_by_job_id)

-- The columns of the two unique indexes.
abbrev pub SameKey : JobRow → JobRow → Type 0
SameKey a b =
    (a.project_id ≡ b.project_id) × (a.job_type ≡ b.job_type) × (a.dedupe_key ≡ b.dedupe_key)

abbrev pub IsPending : JobRow → Type 0
IsPending r = r.status ≡ pending

abbrev pub IsExecuting : JobRow → Type 0
IsExecuting r = is_executing r ≡ true

pub record Valid (s : Store) : Type 0 where
  pub checked : (r : JobRow) → Memᴰ r s.jobs → checks r ≡ true
  pub job_ids : (i : ℕ) → count_if (has_id i) s.jobs ≤ 1
  -- jobs_one_pending and jobs_one_executing
  pub one_pending :
      (a b : JobRow)
      → Memᴰ a s.jobs
      → Memᴰ b s.jobs
      → IsPending a
      → IsPending b
      → SameKey a b
      → a.id ≡ b.id
  pub one_executing :
      (a b : JobRow)
      → Memᴰ a s.jobs
      → Memᴰ b s.jobs
      → IsExecuting a
      → IsExecuting b
      → SameKey a b
      → a.id ≡ b.id
  -- the foreign keys
  pub job_project :
      (r : JobRow)
      → Memᴰ r s.jobs
      → (p : ProjectRow) × (find_if (has_project_id r.project_id) s.projects ≡ some p)
  pub successor :
      (r : JobRow) (i : ℕ)
      → Memᴰ r s.jobs
      → r.superseded_by_job_id ≡ some i
      → (t : JobRow) × Memᴰ t s.jobs × (t.id ≡ i)
  pub project_ids : (i : ℕ) → count_if (has_project_id i) s.projects ≤ 1
  pub project_keys : (key : Text) → count_if (has_key key) s.projects ≤ 1
  pub project_times : (p : ProjectRow) → Memᴰ p s.projects → p.created_at ≤ p.last_seen_at
  pub published_checked : published_ok s.published ≡ true
