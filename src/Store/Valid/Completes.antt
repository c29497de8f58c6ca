-- ===== src/Store/Valid/Completes.antt =====
-- `update_progress`, `complete_success` and `complete_failure` keep the schema.
use remy_cc.Prelude.{
  ℕ, ◌≤◌, Bool, true, false, ◌||◌, ◌≡◌, refl, Option, none, some, ◌⊎◌, inl, inr, arith, Text,
  Bool-cases, ℤ, pos, negsuc,
}
use remy_cc.Host.{Host, Reading}
use remy_cc.Job.{JobStatus, running, succeeded, failed, status_eq, status_eq→eq}
use remy_cc.Store.Monad.{Store}
use remy_cc.Store.Monad.Steps.{update_jobs-bind}
use remy_cc.Store.Complete.{
  ProgressUpdate, progress_range, takes_progress, set_progress, set_completed, result_column,
  error_column, after_progress, progress_in_range, update_progress, finish_completion,
  complete_from, complete,
}
use remy_cc.Store.Valid.{checks, Valid}
use remy_cc.Store.Valid.Calm.{IsCalm, calm-Valid}
use remy_cc.Store.Valid.Transitions.{at_status-Valid}
use remy_cc.Store.Valid.Rules.{
  lift-keeps, transaction-keeps, load-keeps, only_load-keeps, throw-keeps,
}

-- What the guard of `update_progress` lets through.
pub progress_range-le :
    (c t : ℤ) {current total : ℕ}
    → progress_range c t ≡ some (current, total)
    → (c ≡ pos current) × (t ≡ pos total) × (current ≤ total)
unfolding progress_range
progress_range-le (pos c) (pos t) h = ground arith
progress_range-le (pos c) (negsuc t) h = cc
progress_range-le (negsuc c) t h = cc

set_progress-IsCalm :
    (current total : ℕ) (message : Text) → IsCalm (set_progress current total message)
set_progress-IsCalm current total message = record {
  keys = record { keeps = λ r. (refl, (refl, refl, refl)) };
  status = λ r. refl;
  successor = λ r. refl;
}

module _ (host : Host) (s : Store) (v : Valid s) where
  after_progress-Valid :
      (job_id : ℕ) (changed : Bool) → Valid (after_progress host job_id changed s).1
  unfolding after_progress
  after_progress-Valid job_id true = (only_load-keeps Valid host job_id s v).left
  after_progress-Valid job_id false =
      (load-keeps Valid host job_id _ s v (λ job r f h. throw-keeps Valid _ s v)).left

module _ (host : Host) (s : Store) (v : Valid s) where
  progress_in_range-Valid :
      (job_id : ℕ) (message : Text) (range : Option (ℕ × ℕ))
      → ((current total : ℕ) → range ≡ some (current, total) → current ≤ total)
      → Valid (progress_in_range host job_id message range s).1
  unfolding progress_in_range checks
  progress_in_range-Valid job_id message none h = (throw-keeps Valid _ s v).left
  progress_in_range-Valid job_id message (some (current, total)) h =
      let within = h current total refl in
      let v' =
        calm-Valid s (takes_progress job_id current) (set_progress current total message)
          (set_progress-IsCalm current total message) v (λ r m t c. ground arith) in
      rw update_jobs-bind (after_progress-Valid host _ v' job_id _)

  -- `update_progress` keeps the schema, on every branch.
  pub update_progress-Valid :
      (job_id : ℕ) (update : ProgressUpdate) → Valid (update_progress host job_id update s).1
  unfolding update_progress
  update_progress-Valid job_id update =
      progress_in_range-Valid job_id update.message (progress_range update.current update.total)
        (λ current total e. (progress_range-le update.current update.total e).2)

  finish_completion-Valid :
      (job_id : ℕ) (changed : Bool) → Valid (finish_completion host job_id changed s).1
  unfolding finish_completion
  finish_completion-Valid job_id true = (only_load-keeps Valid host job_id s v).left
  finish_completion-Valid job_id false = (throw-keeps Valid _ s v).left

module _ (host : Host) (s : Store) (v : Valid s) (job_id : ℕ) where
  complete_from-Valid :
      (status : JobStatus) (encoded : Text) (now : ℕ) (from : JobStatus)
      → (status ≡ succeeded) ⊎ (status ≡ failed)
      → Valid (complete_from host job_id status encoded now from s).1
  unfolding complete_from checks
  complete_from-Valid status encoded now running final =
      let v' =
        at_status-Valid s v job_id running
          (set_completed status (result_column status encoded) (error_column status encoded) now)
          (record { keeps = λ r. (refl, (refl, refl, refl)) }) (λ r e c. ground arith)
          (λ x y mx my e st p q k. ground arith) (λ x y mx my e st p q k. ground arith)
          (λ r i m e. v.successor r i m e) in
      rw update_jobs-bind (finish_completion-Valid host _ v' job_id _)
  complete_from-Valid status encoded now _ final = (throw-keeps Valid _ s v).left

  -- `complete` keeps the schema, on every branch.
  pub complete-Valid :
      (clock : Reading) (status : JobStatus) (payload : host.Value)
      → Valid (complete host clock job_id status payload s).1
  unfolding complete
  complete-Valid clock status payload =
      elim (Bool-cases (status_eq status succeeded || status_eq status failed)) [
        | inl t ↦
            rw t
              (lift-keeps Valid _ _ s v (λ now _. lift-keeps Valid _ _ s v (λ encoded _.
                transaction-keeps Valid _ s v (
                  load-keeps Valid host job_id _ s v (λ job r f h. record {
                    left =
                        complete_from-Valid status encoded now job.status (
                          ground
                            (arith, status_eq→eq status succeeded, status_eq→eq status failed));
                  }))))).left
        | inr t ↦ rw t (throw-keeps Valid _ s v).left
      ]
