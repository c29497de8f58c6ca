-- ===== src/Store/Rollback.antt =====
-- The methods of the store that run in a transaction undo what they did where they fail
-- (remy-cc/src/state.rs).
use remy_cc.Prelude.{ℕ, Text, inl, inr, Bool-cases, text_eq, ◌||◌}
use remy_cc.Host.{Host, Reading}
use remy_cc.Job.{JobStatus, succeeded, failed, status_eq}
use remy_cc.Store.Monad.{Store}
use remy_cc.Store.Monad.Atomic.{IsAtomic, transaction-IsAtomic, lift-IsAtomic, throw-IsAtomic}
use remy_cc.Store.Transition.{cancel, confirm_cancelled}
use remy_cc.Store.Submit.{SubmitJob, submit_normalized, submit, submit_full_scan, provider_rust}
use remy_cc.Store.Claim.{claim_next_pending}
use remy_cc.Store.Complete.{complete}
use remy_cc.Store.Recover.{recover}

module _ (host : Host) (clock : Reading) (s : Store) where
  pub cancel-IsAtomic : (job_id : ℕ) → IsAtomic (cancel host clock job_id) s
  unfolding cancel
  cancel-IsAtomic job_id = lift-IsAtomic _ _ s (λ now. transaction-IsAtomic _ s)

  pub confirm_cancelled-IsAtomic : (job_id : ℕ) → IsAtomic (confirm_cancelled host clock job_id) s
  unfolding confirm_cancelled
  confirm_cancelled-IsAtomic job_id = lift-IsAtomic _ _ s (λ now. transaction-IsAtomic _ s)

  submit-IsAtomic : (request : SubmitJob) → IsAtomic (submit host clock request) s
  unfolding submit submit_normalized
  submit-IsAtomic request = lift-IsAtomic _ _ s (λ project.
      lift-IsAtomic _ _ s
        (λ db. lift-IsAtomic _ _ s (λ file. lift-IsAtomic _ _ s (λ now. transaction-IsAtomic _ s))))

  submit_full_scan-IsAtomic : (project_id : ℕ) → IsAtomic (submit_full_scan host clock project_id) s
  unfolding submit_full_scan
  submit_full_scan-IsAtomic project_id = lift-IsAtomic _ _ s (λ now. transaction-IsAtomic _ s)

  pub claim_next_pending-IsAtomic :
      (provider : Text) → IsAtomic (claim_next_pending host clock provider) s
  unfolding claim_next_pending
  claim_next_pending-IsAtomic provider = elim (Bool-cases (text_eq provider provider_rust)) [
    | inl t ↦ rw t (lift-IsAtomic _ _ s (λ now. transaction-IsAtomic _ s))
    | inr t ↦ rw t (throw-IsAtomic _ s)
  ]

  pub complete-IsAtomic :
      (job_id : ℕ) (status : JobStatus) (payload : host.Value)
      → IsAtomic (complete host clock job_id status payload) s
  unfolding complete
  complete-IsAtomic job_id status payload =
      elim (Bool-cases (status_eq status succeeded || status_eq status failed)) [
        | inl t ↦
            rw t (
              lift-IsAtomic _ _ s
                (λ now. lift-IsAtomic _ _ s (λ encoded. transaction-IsAtomic _ s)))
        | inr t ↦ rw t (throw-IsAtomic _ s)
      ]

  recover-IsAtomic : IsAtomic (recover clock) s
  unfolding recover
  recover-IsAtomic = lift-IsAtomic _ _ s (λ now. transaction-IsAtomic _ s)

  -- `submit`, `submit_full_scan`, `cancel`, `confirm_cancelled`, `claim_next_pending`, `complete` and
  -- `recover` leave the tables as they were where they fail, however far they had come.
  pub transactions-IsAtomic :
      (request : SubmitJob) (project_id job_id : ℕ) (provider : Text) (status : JobStatus)
      (payload : host.Value)
      → IsAtomic (submit host clock request) s
        × IsAtomic (submit_full_scan host clock project_id) s
        × IsAtomic (cancel host clock job_id) s
        × IsAtomic (confirm_cancelled host clock job_id) s
        × IsAtomic (claim_next_pending host clock provider) s
        × IsAtomic (complete host clock job_id status payload) s
        × IsAtomic (recover clock) s
  transactions-IsAtomic request project_id job_id provider status payload = (
    submit-IsAtomic request,
    submit_full_scan-IsAtomic project_id,
    cancel-IsAtomic job_id,
    confirm_cancelled-IsAtomic job_id,
    claim_next_pending-IsAtomic provider,
    complete-IsAtomic job_id status payload,
    recover-IsAtomic,
  )
