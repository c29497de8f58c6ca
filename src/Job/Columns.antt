-- ===== src/Job/Columns.antt =====
-- The columns `status` and `priority` (remy-cc/src/state.rs, `as_db` and `from_db`).
use remy_cc.Prelude.{ℕ, ◌≡◌, ◌↔◌, Text, text_eq, text_eq_iff, arith, true}
use remy_cc.Job.{
  ok, JobStatus, pending, running, cancel_requested, succeeded, failed, cancelled, superseded,
  status_db, status_from_db, JobPriority, priority_db, priority_from_db,
}

abbrev text_is :
    (t : Text) (st : JobStatus) → (text_eq t (status_db st) ≡ true) ↔ (t ≡ status_db st)
text_is t st = text_eq_iff t (status_db st)

status-text : (t : Text) (st : JobStatus) → status_from_db t ≡ ok st → t ≡ status_db st
unfolding status_from_db
status-text t st h = ground (
  arith,
  text_is t pending,
  text_is t running,
  text_is t cancel_requested,
  text_is t succeeded,
  text_is t failed,
  text_is t cancelled,
  text_is t superseded,
)

text-status : (st : JobStatus) → status_from_db (status_db st) ≡ ok st
unfolding status_from_db text_eq
text-status st = ground arith

-- A text is read as a state exactly if it is what is written for the state.
pub status_from_db_iff :
    (t : Text) (st : JobStatus) → (status_from_db t ≡ ok st) ↔ (t ≡ status_db st)
status_from_db_iff t st = (status-text t st, λ e. rw e (text-status st))

-- A number is read as a priority exactly if it is what is written for the priority.
pub priority_from_db_iff :
    (n : ℕ) (p : JobPriority) → (priority_from_db n ≡ ok p) ↔ (n ≡ priority_db p)
unfolding priority_from_db
priority_from_db_iff n p = (λ h. ground arith, λ e. ground arith)
