-- ===== src/Store/Complete.antt =====
-- remy-cc/src/state.rs: `update_progress`, `complete`, `complete_success` and `complete_failure`.
pub mod Payload
pub mod Progress
use remy_cc.Prelude.{
  ℕ, Bool, true, false, ◌&&◌, ◌||◌, Option, none, some, Text, codes, leb, ◌==◌, if◌then◌else◌, ℤ,
  pos,
}
use remy_cc.Host.{Host, Reading}
use remy_cc.Job.{
  Result, ok, err, JobStatus, running, succeeded, failed, status_eq, invalid_input,
  progress_out_of_order, invalid_transition, completion_status, not_serializable, corrupt,
  changed_during_completion, JobRow, Job,
}
use remy_cc.Store.Monad.{M, ◌>>=◌, throw, lift, transaction, update_jobs, has_id, now_millis}
use remy_cc.Store.Load.{load_job}
use remy_cc.Store.Transition.{at_status}
use remy_cc.Store.Submit.{is_executing}

pub record ProgressUpdate : Type 0 where
  pub current : ℤ
  pub total : ℤ
  pub message : Text

-- The two numbers, if 0 ≤ current ≤ total.
unfoldable pub progress_range : ℤ → ℤ → Option (ℕ × ℕ)
progress_range (pos current) (pos total) = if leb current total then some (current, total) else none
progress_range _ _ = none

abbrev pub at_most : ℕ → Option ℕ → Bool
at_most n none = true
at_most n (some m) = leb m n

abbrev pub set_progress : ℕ → ℕ → Text → JobRow → JobRow
set_progress current total message r = record r {
  progress_current = some current;
  progress_total = some total;
  progress_message = some message;
}

abbrev pub takes_progress : ℕ → ℕ → JobRow → Bool
takes_progress job_id current r =
    has_id job_id r && is_executing r && at_most current r.progress_current

-- The columns that `complete` writes.
abbrev pub set_completed : JobStatus → Option Text → Option Text → ℕ → JobRow → JobRow
set_completed status result error now r = record r {
  status = status;
  progress_current = some 3;
  progress_total = some 3;
  progress_message = some (codes "finalizing");
  result_json = result;
  error_json = error;
  finished_at = some now;
}

abbrev pub result_column : JobStatus → Text → Option Text
result_column status encoded = if status_eq status succeeded then some encoded else none

abbrev pub error_column : JobStatus → Text → Option Text
error_column status encoded = if status_eq status succeeded then none else some encoded

module _ (host : Host) where
  open host use {Value, to_string}

  unfoldable pub after_progress : ℕ → Bool → M (Job host)
  after_progress job_id true = load_job host job_id
  after_progress job_id false = do
    current ← load_job host job_id
    throw (invalid_transition current.status current.status)

  unfoldable pub progress_in_range : ℕ → Text → Option (ℕ × ℕ) → M (Job host)
  unfolding after_progress
  progress_in_range job_id message none = throw (invalid_input progress_out_of_order)
  progress_in_range job_id message (some (current, total)) = do
    changed ← update_jobs (takes_progress job_id current) (set_progress current total message)
    after_progress job_id (changed == 1)

  unfoldable pub update_progress : ℕ → ProgressUpdate → M (Job host)
  unfolding progress_in_range progress_range
  update_progress job_id update =
      progress_in_range job_id update.message (progress_range update.current update.total)

  unfoldable pub encode : Value → Result Text
  encode v = elim (to_string v) [ none ↦ err (invalid_input not_serializable) | some t ↦ ok t ]

  unfoldable pub finish_completion : ℕ → Bool → M (Job host)
  finish_completion job_id true = load_job host job_id
  finish_completion job_id false = throw (corrupt (changed_during_completion job_id))

  -- The body of the transaction behind the test of the state.
  unfoldable pub complete_from : ℕ → JobStatus → Text → ℕ → JobStatus → M (Job host)
  unfolding finish_completion
  complete_from job_id status encoded now running = do
    changed ←
        update_jobs (at_status job_id running)
          (set_completed status (result_column status encoded) (error_column status encoded) now)
    finish_completion job_id (changed == 1)
  complete_from job_id status encoded now from = throw (invalid_transition from status)

  unfoldable pub complete : Reading → ℕ → JobStatus → Value → M (Job host)
  unfolding encode complete_from
  complete clock job_id status payload =
      if status_eq status succeeded || status_eq status failed
      then (do
        now ← lift (now_millis clock)
        encoded ← lift (encode payload)
        transaction do
          current ← load_job host job_id
          complete_from job_id status encoded now current.status)
      else throw (invalid_input completion_status)

  abbrev pub complete_success : Reading → ℕ → Value → M (Job host)
  complete_success clock job_id result = complete clock job_id succeeded result

  abbrev pub complete_failure : Reading → ℕ → Value → M (Job host)
  complete_failure clock job_id error = complete clock job_id failed error
