-- ===== src/Scheduler/Work.antt =====
-- The loop of the scheduler: the slot is right in every round, and a round ends with a job started if
-- one waits (remy-cc/src/scheduler.rs, `run`).
pub mod Rounds
use remy_cc.Prelude.{
  ℕ, true, false, ◌≡◌, refl, sym, ◌∙◌, Option, none, some, Option-cases, inl, inr, ◌⊎◌, List, [],
  ◌∷◌, ◌++◌, arith, text_eq_refl, subst,
}
use remy_cc.Host.{Host, Reading}
use remy_cc.Job.{Result, ok, err, StateError, JobStatus, running, cancel_requested, JobRow, Job}
use remy_cc.Store.Monad.{Store, now_millis, programs}
use remy_cc.Store.Load.Laws.{load_job-same}
use remy_cc.Store.Submit.{provider_rust}
use remy_cc.Store.Claim.{next_claim, claim_next_pending}
use remy_cc.Store.Complete.{ProgressUpdate, update_progress}
use remy_cc.Store.Listing.Same.{list-keeps, recent_failed-keeps}
use remy_cc.Store.Valid.{Valid}
use remy_cc.Store.Valid.Rules.{Leaves, bind-keeps, return-keeps}
use remy_cc.Store.Runs.{SameRuns, SameRuns-refl}
use remy_cc.Store.Runs.Commands.{
  submit-SameRuns, submit_full_scan-SameRuns, promote-SameRuns, update_progress-SameRuns,
}
use remy_cc.Store.Runs.Claimed.{claim_effect, Returns, claim_next_pending_lem}
use remy_cc.Scheduler.{
  ActiveJob, WorkerEvent, progress, complete_with, Command, submit_job, submit_scan, promote_job,
  get_job, cancel_job, list_jobs, status, worker, shutdown, Reply, Scheduler, handle_worker, handle,
  status_snapshot, of_status, no_answer, record_progress, Spawn, fill_slot, after_claim,
  dispatch_slot, dispatch, Turn, Outcome, running_on, ended, dispatch_outcome, after_handle,
  run_command, receive, round, rounds, run,
}
use remy_cc.Scheduler.Schema.{handle-Valid, dispatch-Valid, fill_slot-store}
use remy_cc.Scheduler.Slot.{NoneExecuting, Seated, SlotState, SameRuns-SlotState}
use remy_cc.Scheduler.Slot.Cancels.{cancel-SlotState}
use remy_cc.Scheduler.Slot.Settles.{settle_complete-SlotState}
use remy_cc.Scheduler.Slot.Claimed.{NonePending, next_claim-NonePending, claimed-Seated}

-- The tables satisfy the schema, and the slot is right.
pub record Works (host : Host) (d : Scheduler host) : Type 0 where
  pub valid : Valid d.store
  pub slot : SlotState d.active d.store

-- Between two rounds a free slot means that no job waits.
abbrev pub IsGood : (host : Host) → Outcome host → Type 0
IsGood host (running_on d) = Works host d × (d.active ≡ none → NonePending d.store)
IsGood host (ended d) = Works host d

module _ (host : Host) where
  status_snapshot-SameRuns : (s : Store) → SameRuns s (status_snapshot host s).1
  unfolding status_snapshot
  status_snapshot-SameRuns s =
      let I = SameRuns s in
      let v1 = list-keeps I host s (SameRuns-refl s) (of_status running) in
      let v2 = list-keeps I host _ v1 (of_status cancel_requested) in
      let v3 = recent_failed-keeps I host _ v2 10 in
      (bind-keeps I _ _ s v1 (λ a _.
        bind-keeps I _ _ _ v2 (λ b _. bind-keeps I _ _ _ v3 (λ c _. return-keeps I _ _ v3)))).left

  handle_worker-slot :
      (clock : Reading) (event : WorkerEvent host) (d : Scheduler host)
      → Works host d
      → SlotState
          (handle_worker host clock event d).1.active
          (handle_worker host clock event d).1.store
  unfolding handle_worker record_progress
  handle_worker-slot clock (progress job_id current message) d w =
      SameRuns-SlotState d.active (update_progress-SameRuns host d.store job_id _) w.slot
  handle_worker-slot clock (complete_with job_id outcome) d w =
      settle_complete-SlotState host clock job_id d.store w.valid d.active w.slot outcome

  no_answer-same : (r : Result (Unit {0}) × Scheduler host) → (no_answer host r).1 ≡ r.1
  no_answer-same (ok _, d) = refl
  no_answer-same (err e, d) = refl

  handle-slot :
      (clock : Reading) (c : Command host) (d : Scheduler host)
      → Works host d
      → SlotState (handle host clock c d).1.active (handle host clock c d).1.store
  unfolding handle
  handle-slot clock (submit_job request) d w =
      SameRuns-SlotState d.active (submit-SameRuns host clock d.store request) w.slot
  handle-slot clock (submit_scan project_id) d w =
      SameRuns-SlotState d.active (submit_full_scan-SameRuns host d.store clock project_id) w.slot
  handle-slot clock (promote_job job_id p) d w =
      SameRuns-SlotState d.active (promote-SameRuns host d.store job_id p) w.slot
  handle-slot clock (get_job job_id) d w = rw (load_job-same host job_id d.store) w.slot
  handle-slot clock (cancel_job job_id) d w =
      cancel-SlotState host clock job_id d.store w.valid d.active w.slot
  handle-slot clock (list_jobs filter) d w =
      list-keeps (SlotState d.active) host d.store w.slot filter
  handle-slot clock status d w =
      SameRuns-SlotState d.active (status_snapshot-SameRuns d.store) w.slot
  handle-slot clock (worker event) d w = rw no_answer-same (handle_worker-slot clock event d w)
  handle-slot clock shutdown d w = w.slot

  pub handle-Works :
      (clock : Reading) (c : Command host) (d : Scheduler host)
      → Works host d
      → Works host (handle host clock c d).1
  handle-Works clock c d w = record {
    valid = handle-Valid host clock c d w.valid;
    slot = handle-slot clock c d w;
  }

module _ (host : Host) where
  -- What `dispatch` leaves: a right slot, which is free only if no job waits.
  abbrev pub IsFilled : Result (Unit {0}) × Scheduler host → Type 0
  IsFilled (ok _, t) = SlotState t.active t.store × (t.active ≡ none → NonePending t.store)
  IsFilled (err _, t) = SlotState t.active t.store

-- `dispatch` with a free slot.
module _ (host : Host) (clock : Reading) (spawn : Spawn host) (d : Scheduler host)
    (v : Valid d.store) (idle : NoneExecuting d.store) where
  filled :
      (job : Job host) (s : Store)
      → Seated (record { job_id = job.id; cancel = false }) s
      → IsFilled host (ok tt, fill_slot host spawn job (record d { store = s }))
  unfolding fill_slot
  filled job s seated = elim (Option-cases (spawn job)) [
    | inl started ↦ rw (started, fill_slot) (seated, λ e. cc)
    | inr (message, failed) ↦ rw (failed, fill_slot) (seated, λ e. cc)
  ]

  claimed :
      (now : ℕ) (picked : Option JobRow) (job : Option (Job host))
      → next_claim d.store.jobs ≡ picked
      → Returns host now d.store v picked job
      → d.active ≡ none
      → IsFilled host (after_claim host spawn d (ok job, claim_effect host now d.store v picked))
  unfolding after_claim
  claimed now none none e returns free = (rw free idle, λ _. next_claim-NonePending d.store idle e)
  claimed now (some r) (some job) e returns free =
      filled job _ (claimed-Seated host now d.store idle r job e returns)
  claimed now none (some job) e returns free = absurd returns
  claimed now (some r) none e returns free = absurd returns

  unread :
      (e : StateError)
      → now_millis clock ≡ err e
      → claim_next_pending host clock provider_rust d.store ≡ (err e, d.store)
  unfolding claim_next_pending programs
  unread e read = rw (text_eq_refl provider_rust, read) refl

  pub dispatch_free :
      (read : Result ℕ)
      → now_millis clock ≡ read
      → d.active ≡ none
      → IsFilled host (dispatch_slot host clock spawn d none)
  unfolding dispatch_slot after_claim
  dispatch_free (err e) read free = rw (unread e read) (rw free idle)
  dispatch_free (ok now) read free =
      let (job, run, returns) = claim_next_pending_lem host now d.store v clock read in
      rw run (claimed now (next_claim d.store.jobs) job refl returns free)
