-- ===== src/Scheduler.antt =====
-- remy-cc/src/scheduler.rs: the one thread that owns the store. Commands arrive in a queue; after each
-- the scheduler starts the next pending job if its slot is free. remy-cc/src/worker.rs: the events of
-- a worker.
pub mod Schema
pub mod Slot
pub mod Work
use remy_cc.Prelude.{
  ℕ, Bool, true, false, ◌&&◌, Option, none, some, List, [], ◌∷◌, ◌++◌, Text, ◌==◌, if◌then◌else◌, ℤ,
  pos,
}
use remy_cc.Host.{Host, Reading}
use remy_cc.Job.{
  Result, ok, err, StateError, not_found, invalid_transition, JobPriority, JobStatus, running,
  cancel_requested, failed, status_eq, Job,
}
use remy_cc.Store.Monad.{Store, M, ◌>>=◌, ◌>>◌, return, lift}
use remy_cc.Store.Load.{get}
use remy_cc.Store.Transition.{CancelResult, cancel, confirm_cancelled}
use remy_cc.Store.Submit.{
  SubmitJob, SubmitResult, PromoteResult, submit, submit_full_scan, promote, provider_rust,
}
use remy_cc.Store.Claim.{claim_next_pending}
use remy_cc.Store.Complete.{ProgressUpdate, update_progress, complete_success, complete_failure}
use remy_cc.Store.Listing.{ListJobs, list, recent_failed}

-- The job in the slot, and the flag that tells its worker to stop.
pub record ActiveJob : Type 0 where
  pub job_id : ℕ
  pub cancel : Bool

-- The filter that `Status` lists with.
abbrev pub of_status : JobStatus → ListJobs
of_status st = record {
  project_path = none;
  file_path = none;
  status = some st;
  job_type = none;
  limit = 200;
}

module _ (host : Host) where
  open host use {Value, spawn_failed}

  pub data WorkerOutcome : Type 0 where
    succeeded_with : Value → WorkerOutcome
    failed_with : Value → WorkerOutcome

  pub data WorkerEvent : Type 0 where
    progress : ℕ → ℤ → Text → WorkerEvent
    complete_with : ℕ → WorkerOutcome → WorkerEvent

  pub data Command : Type 0 where
    submit_job : SubmitJob → Command
    submit_scan : ℕ → Command
    promote_job : ℕ → JobPriority → Command
    get_job : ℕ → Command
    cancel_job : ℕ → Command
    list_jobs : ListJobs → Command
    status : Command
    worker : WorkerEvent → Command
    shutdown : Command

  -- What is sent to the caller of a command.
  pub data Reply : Type 0 where
    submitted : Result (SubmitResult host) → Reply
    promoted : Result (PromoteResult host) → Reply
    got : Result (Job host) → Reply
    cancelled_job : Result (CancelResult host) → Reply
    listed : Result (List (Job host)) → Reply
    snapshot : Result (List (Job host) × List (Job host)) → Reply
    no_reply : Reply

  -- The store, the slot and the commands that wait in the channel.
  pub record Scheduler : Type 0 where
    pub store : Store
    pub active : Option ActiveJob
    pub inbox : List Command

  -- `_ => Ok(())` for a late progress event.
  unfoldable pub ignore_late : {A : Type 0} → Result A → Result (Unit {0})
  ignore_late (ok _) = ok tt
  ignore_late (err (invalid_transition _ _)) = ok tt
  ignore_late (err (not_found _)) = ok tt
  ignore_late (err e) = err e

  unfoldable pub record_progress : ℕ → ℤ → Text → M (Unit {0})
  unfolding ignore_late
  record_progress job_id current message s =
      let (r, s') =
        update_progress host job_id (record { current = current; total = pos 3; message = message })
          s in
      (ignore_late r, s')

  unfoldable pub record_outcome : Reading → ℕ → WorkerOutcome → M (Unit {0})
  record_outcome clock job_id (succeeded_with v) =
      complete_success host clock job_id v >>= λ _. return tt
  record_outcome clock job_id (failed_with v) =
      complete_failure host clock job_id v >>= λ _. return tt

  -- The `match current.status` of a `Complete` event.
  unfoldable pub settle_job : Reading → ℕ → WorkerOutcome → JobStatus → M (Unit {0})
  unfolding record_outcome
  settle_job clock job_id outcome cancel_requested =
      confirm_cancelled host clock job_id >>= λ _. return tt
  settle_job clock job_id outcome running = record_outcome clock job_id outcome
  settle_job clock job_id outcome _ = return tt

  unfoldable pub settle_complete : Reading → ℕ → WorkerOutcome → M (Unit {0})
  unfolding settle_job
  settle_complete clock job_id outcome = do
    current ← get host job_id
    settle_job clock job_id outcome current.status

  -- The slot is freed if the event is of the job in it.
  unfoldable pub free_slot : ℕ → Option ActiveJob → Option ActiveJob
  free_slot job_id none = none
  free_slot job_id (some a) = if a.job_id == job_id then none else some a

  -- The slot behind a `Complete` event; an error leaves it as it was.
  abbrev pub slot_after : ℕ → Result (Unit {0}) → Option ActiveJob → Option ActiveJob
  slot_after job_id (ok _) active = free_slot job_id active
  slot_after job_id (err _) active = active

  unfoldable pub handle_worker : Reading → WorkerEvent → Scheduler → Result (Unit {0}) × Scheduler
  unfolding record_progress
  handle_worker clock (progress job_id current message) d =
      let (r, s) = record_progress job_id current message d.store in (r, record d { store = s })
  handle_worker clock (complete_with job_id outcome) d =
      let (r, s) = settle_complete clock job_id outcome d.store in
      (r, record d { store = s; active = slot_after job_id r d.active })

  -- A running job that is asked to stop has its worker's flag set.
  unfoldable pub flag_cancel : ℕ → Result (CancelResult host) → Option ActiveJob → Option ActiveJob
  flag_cancel job_id (ok outcome) (some a) =
      if outcome.changed && status_eq outcome.job.status cancel_requested && a.job_id == job_id
      then some (record a { cancel = true })
      else some a
  flag_cancel job_id _ active = active

  -- The answer to `Status`: the executing jobs and the last failures.
  unfoldable pub status_snapshot : M (List (Job host) × List (Job host))
  status_snapshot = do
    active ← list host (of_status running)
    cancelling ← list host (of_status cancel_requested)
    failures ← recent_failed host 10
    return (active ++ cancelling, failures)

  -- A command that asks the store and leaves the slot alone.
  abbrev pub ask : {A : Type 0} → (Result A → Reply) → M A → Scheduler → Result Reply × Scheduler
  ask reply m d = let (r, s) = m d.store in (ok (reply r), record d { store = s })

  abbrev pub no_answer : Result (Unit {0}) × Scheduler → Result Reply × Scheduler
  no_answer (ok _, d) = (ok no_reply, d)
  no_answer (err e, d) = (err e, d)

  -- The `match command` of `run`, for every command but `Shutdown`, which ends the loop.
  unfoldable pub handle : Reading → Command → Scheduler → Result Reply × Scheduler
  handle clock (submit_job request) d = ask submitted (submit host clock request) d
  handle clock (submit_scan project_id) d = ask submitted (submit_full_scan host clock project_id) d
  handle clock (promote_job job_id p) d = ask promoted (promote host job_id p) d
  handle clock (get_job job_id) d = ask got (get host job_id) d
  handle clock (cancel_job job_id) d =
      let (r, s) = cancel host clock job_id d.store in
      (ok (cancelled_job r), record d { store = s; active = flag_cancel job_id r d.active })
  handle clock (list_jobs filter) d = ask listed (list host filter) d
  handle clock status d = ask snapshot status_snapshot d
  handle clock (worker event) d = no_answer (handle_worker clock event d)
  handle clock shutdown d = (ok no_reply, d)

  -- `worker::spawn`: `none` if the worker started, or the error's text.
  abbrev pub Spawn : Type 0
  Spawn = Job host → Option Text

  -- A worker that cannot start is reported through the scheduler's own queue.
  unfoldable pub fill_slot : Spawn → Job host → Scheduler → Scheduler
  fill_slot spawn job d =
      let seated = record d { active = some (record { job_id = job.id; cancel = false }) } in
      elim (spawn job) [
        | none ↦ seated
        | some message ↦ record seated {
          inbox =
              d.inbox ++ worker (complete_with job.id (failed_with (spawn_failed message))) ∷ [];
        }
      ]

  unfoldable pub after_claim :
      Spawn → Scheduler → Result (Option (Job host)) × Store → Result (Unit {0}) × Scheduler
  unfolding fill_slot
  after_claim spawn d (err e, s) = (err e, record d { store = s })
  after_claim spawn d (ok none, s) = (ok tt, record d { store = s })
  after_claim spawn d (ok (some job), s) = (ok tt, fill_slot spawn job (record d { store = s }))

  unfoldable pub dispatch_slot :
      Reading → Spawn → Scheduler → Option ActiveJob → Result (Unit {0}) × Scheduler
  unfolding after_claim
  dispatch_slot clock spawn d (some _) = (ok tt, d)
  dispatch_slot clock spawn d none =
      after_claim spawn d (claim_next_pending host clock provider_rust d.store)

  unfoldable pub dispatch : Reading → Spawn → Scheduler → Result (Unit {0}) × Scheduler
  unfolding dispatch_slot
  dispatch clock spawn d = dispatch_slot clock spawn d d.active

  -- What one round of the loop finds outside: a command that arrives, and two times of the clock.
  pub record Turn : Type 0 where
    pub arrivals : List Command
    pub handled_at : Reading
    pub dispatched_at : Reading
    pub spawn : Spawn

  pub data Outcome : Type 0 where
    running_on : Scheduler → Outcome
    ended : Scheduler → Outcome

  unfoldable pub dispatch_outcome : Result (Unit {0}) × Scheduler → Outcome
  dispatch_outcome (ok _, d) = running_on d
  dispatch_outcome (err _, d) = ended d

  unfoldable pub after_handle : Turn → Result Reply × Scheduler → Outcome
  unfolding dispatch_outcome
  after_handle t (err e, d) = ended d
  after_handle t (ok _, d) = dispatch_outcome (dispatch t.dispatched_at t.spawn d)

  unfoldable pub run_command : Turn → Scheduler → Command → Outcome
  unfolding after_handle
  run_command t d shutdown = ended d
  run_command t d c = after_handle t (handle t.handled_at c d)

  -- `receiver.recv()`: the oldest command, or waiting on.
  unfoldable pub receive : Turn → Scheduler → List Command → Outcome
  unfolding run_command
  receive t d [] = running_on d
  receive t d (c ∷ rest) = run_command t (record d { inbox = rest }) c

  -- One round of the `while` loop of `run`.
  unfoldable pub round : Turn → Scheduler → Outcome
  unfolding receive
  round t d = receive t d (d.inbox ++ t.arrivals)

  -- `run`: the first dispatch, then the rounds.
  unfoldable pub rounds : List Turn → Outcome → Outcome
  rounds [] o = o
  rounds (t ∷ ts) (ended d) = ended d
  rounds (t ∷ ts) (running_on d) = rounds ts (round t d)

  unfoldable pub run : Reading → Spawn → List Turn → Store → Outcome
  unfolding rounds round dispatch_outcome
  run clock spawn turns s =
      rounds turns
        (dispatch_outcome (dispatch clock spawn (record { store = s; active = none; inbox = [] })))
