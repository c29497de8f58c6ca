-- ===== src/Store/Transition.antt =====
-- remy-cc/src/state.rs: `allowed_transition`, `transition_job` and `cancel`, `confirm_cancelled`.
use remy_cc.Prelude.{ℕ, Bool, true, false, ◌&&◌, Option, none, some, ◌==◌}
use remy_cc.Host.{Host, Reading}
use remy_cc.Job.{
  JobStatus, pending, running, cancel_requested, succeeded, failed, cancelled, superseded,
  status_eq, invalid_input, invalid_transition, not_cancellable, result_payload_required,
  error_payload_required, JobRow, Job,
}
use remy_cc.Store.Monad.{M, ◌>>=◌, return, throw, lift, transaction, update_jobs, now_millis}
use remy_cc.Store.Load.{load_job}

unfoldable pub allowed_transition : JobStatus → JobStatus → Bool
allowed_transition pending running = true
allowed_transition pending cancelled = true
allowed_transition pending superseded = true
allowed_transition running pending = true
allowed_transition running succeeded = true
allowed_transition running failed = true
allowed_transition running cancel_requested = true
allowed_transition running superseded = true
allowed_transition cancel_requested cancelled = true
allowed_transition _ _ = false

-- `WHERE id = job_id AND status = from`
abbrev pub at_status : ℕ → JobStatus → JobRow → Bool
at_status job_id from r = r.id == job_id && status_eq r.status from

-- `execute(…)? == 1` behind an `UPDATE` of one job.
abbrev pub change : (JobRow → Bool) → (JobRow → JobRow) → M Bool
change p f = do changed ← update_jobs p f; return (changed == 1)

abbrev pub set_running : ℕ → JobRow → JobRow
set_running now r = record r { status = running; started_at = some now }

abbrev pub set_requeued : JobRow → JobRow
set_requeued r = record r {
  status = pending;
  started_at = none;
  finished_at = none;
  progress_current = none;
  progress_total = none;
  progress_message = none;
}

abbrev pub set_cancel_requested : JobRow → JobRow
set_cancel_requested r = record r { status = cancel_requested }

abbrev pub set_cancelled : ℕ → JobRow → JobRow
set_cancelled now r = record r { status = cancelled; finished_at = some now }

abbrev pub set_superseded : ℕ → Option ℕ → JobRow → JobRow
set_superseded now by r = record r {
  status = superseded;
  finished_at = some now;
  superseded_by_job_id = by;
}

-- The `match (from, to)` behind the guard.
unfoldable pub apply_transition : ℕ → JobStatus → JobStatus → ℕ → Option ℕ → M Bool
apply_transition job_id pending running now by = change (at_status job_id pending) (set_running now)
apply_transition job_id running pending now by = change (at_status job_id running) set_requeued
apply_transition job_id running cancel_requested now by =
    change (at_status job_id running) set_cancel_requested
apply_transition job_id pending cancelled now by =
    change (at_status job_id pending) (set_cancelled now)
apply_transition job_id cancel_requested cancelled now by =
    change (at_status job_id cancel_requested) (set_cancelled now)
apply_transition job_id pending superseded now by =
    change (at_status job_id pending) (set_superseded now by)
apply_transition job_id running superseded now by =
    change (at_status job_id running) (set_superseded now by)
apply_transition job_id running succeeded now by = throw (invalid_input result_payload_required)
apply_transition job_id running failed now by = throw (invalid_input error_payload_required)
apply_transition job_id from to now by = throw (invalid_transition from to)

unfoldable pub transition_job : ℕ → JobStatus → JobStatus → ℕ → Option ℕ → M Bool
unfolding allowed_transition apply_transition
transition_job job_id from to now by = elim (allowed_transition from to) [
  | true ↦ apply_transition job_id from to now by
  | false ↦ throw (invalid_transition from to)
]

pub record CancelResult (host : Host) : Type 0 where
  pub job : Job host
  pub changed : Bool

-- The `match current.status` of `cancel`.
unfoldable pub cancel_from : ℕ → ℕ → JobStatus → M Bool
unfolding transition_job
cancel_from job_id now pending = transition_job job_id pending cancelled now none
cancel_from job_id now running = transition_job job_id running cancel_requested now none
cancel_from job_id now cancel_requested = return false
cancel_from job_id now cancelled = return false
cancel_from job_id now status = throw (not_cancellable status)

module _ (host : Host) where
  unfoldable pub cancel : Reading → ℕ → M (CancelResult host)
  unfolding cancel_from
  cancel clock job_id = do
    now ← lift (now_millis clock)
    transaction do
      current ← load_job host job_id
      changed ← cancel_from job_id now current.status
      job ← load_job host job_id
      return (record { job = job; changed = changed })

  -- The body of `confirm_cancelled` behind its test of the state.
  unfoldable pub confirm_from : ℕ → ℕ → JobStatus → M Bool
  unfolding transition_job
  confirm_from job_id now cancel_requested =
      transition_job job_id cancel_requested cancelled now none
  confirm_from job_id now status = throw (invalid_transition status cancelled)

  unfoldable pub confirm_cancelled : Reading → ℕ → M (Job host)
  unfolding confirm_from
  confirm_cancelled clock job_id = do
    now ← lift (now_millis clock)
    transaction do
      current ← load_job host job_id
      changed ← confirm_from job_id now current.status
      load_job host job_id
