-- ===== src/Store/Recover.antt =====
-- remy-cc/src/state.rs: `recover`, run when the store is opened.
use remy_cc.Prelude.{ℕ, ◌+◌, Bool, true, false, Option, none, some, List, [], ◌∷◌}
use remy_cc.Host.{Reading}
use remy_cc.Job.{pending, running, cancel_requested, cancelled, superseded, JobRow}
use remy_cc.Store.Monad.{M, ◌>>=◌, return, lift, transaction, query_job, query_jobs, now_millis}
use remy_cc.Store.Transition.{transition_job}
use remy_cc.Store.Submit.{is_status, is_pending_of}

pub record RecoveryReport : Type 0 where
  pub requeued : ℕ
  pub cancelled : ℕ
  pub superseded : ℕ

abbrev pub empty_report : RecoveryReport
empty_report = record { requeued = 0; cancelled = 0; superseded = 0 }

abbrev pub count_superseded : RecoveryReport → Bool → RecoveryReport
count_superseded report true = record report { superseded = report.superseded + 1 }
count_superseded report false = report

abbrev pub count_requeued : RecoveryReport → Bool → RecoveryReport
count_requeued report true = record report { requeued = report.requeued + 1 }
count_requeued report false = report

abbrev pub count_cancelled : RecoveryReport → Bool → RecoveryReport
count_cancelled report true = record report { cancelled = report.cancelled + 1 }
count_cancelled report false = report

-- A running job gives way to a pending job of its key, or is queued again.
unfoldable pub requeue_or_supersede : ℕ → JobRow → RecoveryReport → Option JobRow → M RecoveryReport
unfolding transition_job
requeue_or_supersede now r report (some successor) = do
  changed ← transition_job r.id running superseded now (some successor.id)
  return (count_superseded report changed)
requeue_or_supersede now r report none = do
  changed ← transition_job r.id running pending now none
  return (count_requeued report changed)

-- One round of the first loop.
unfoldable pub recover_running : ℕ → JobRow → RecoveryReport → M RecoveryReport
unfolding requeue_or_supersede
recover_running now r report = do
  successor ← query_job (is_pending_of r.project_id r.job_type r.dedupe_key)
  requeue_or_supersede now r report successor

unfoldable pub recover_all_running : ℕ → List JobRow → RecoveryReport → M RecoveryReport
recover_all_running now [] report = return report
recover_all_running now (r ∷ rs) report =
    recover_running now r report >>= λ report'. recover_all_running now rs report'

-- One round of the second loop.
unfoldable pub recover_cancelling : ℕ → JobRow → RecoveryReport → M RecoveryReport
unfolding transition_job
recover_cancelling now r report = do
  changed ← transition_job r.id cancel_requested cancelled now none
  return (count_cancelled report changed)

unfoldable pub recover_all_cancelling : ℕ → List JobRow → RecoveryReport → M RecoveryReport
recover_all_cancelling now [] report = return report
recover_all_cancelling now (r ∷ rs) report =
    recover_cancelling now r report >>= λ report'. recover_all_cancelling now rs report'

unfoldable pub recover : Reading → M RecoveryReport
unfolding recover_all_running recover_running recover_all_cancelling recover_cancelling
recover clock = do
  now ← lift (now_millis clock)
  transaction do
    executing ← query_jobs (is_status running)
    report ← recover_all_running now executing empty_report
    cancelling ← query_jobs (is_status cancel_requested)
    recover_all_cancelling now cancelling report
