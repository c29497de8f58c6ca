-- ===== src/Scheduler/Schema.antt =====
-- The schema of the store through the rounds of the scheduler (remy-cc/src/scheduler.rs).
use remy_cc.Prelude.{ℕ, ◌≡◌, refl, Option, none, some, List, [], ◌∷◌, ◌++◌, arith}
use remy_cc.Host.{Host, Reading}
use remy_cc.Job.{Result, ok, err, JobStatus, running, cancel_requested, succeeded, failed, Job}
use remy_cc.Store.Monad.{Store}
use remy_cc.Store.Load.Laws.{load_job-same}
use remy_cc.Store.Submit.{provider_rust}
use remy_cc.Store.Claim.{claim_next_pending}
use remy_cc.Store.Listing.Same.{list-keeps, recent_failed-keeps}
use remy_cc.Store.Valid.{Valid}
use remy_cc.Store.Valid.Rules.{Leaves, bind-keeps, load-keeps, return-keeps}
use remy_cc.Store.Valid.Transitions.{cancel-Valid, confirm_cancelled-Valid}
use remy_cc.Store.Valid.Submits.{submit-Valid}
use remy_cc.Store.Valid.FullScans.{submit_full_scan-Valid, promote-Valid}
use remy_cc.Store.Valid.Claims.{claim_next_pending-Valid}
use remy_cc.Store.Valid.Completes.{update_progress-Valid, complete-Valid}
use remy_cc.Scheduler.{
  WorkerOutcome, succeeded_with, failed_with, WorkerEvent, progress, complete_with, Command,
  submit_job, submit_scan, promote_job, get_job, cancel_job, list_jobs, status, worker, shutdown,
  Reply, Scheduler, ActiveJob, settle_job, settle_complete, handle_worker, handle, status_snapshot,
  Spawn, fill_slot, after_claim, dispatch_slot, dispatch, Turn, Outcome, running_on, ended,
  dispatch_outcome, after_handle, run_command, receive, round, rounds, run, no_answer,
  record_outcome, record_progress, of_status,
}

module _ (host : Host) (clock : Reading) (s : Store) (v : Valid s) (job_id : ℕ) where
  record_outcome-Leaves :
      (outcome : WorkerOutcome host) → Leaves Valid (record_outcome host clock job_id outcome) s
  unfolding record_outcome
  record_outcome-Leaves (succeeded_with x) =
      let v' = complete-Valid host s v job_id clock succeeded x in
      bind-keeps Valid _ _ s v' (λ job _. return-keeps Valid _ _ v')
  record_outcome-Leaves (failed_with x) =
      let v' = complete-Valid host s v job_id clock failed x in
      bind-keeps Valid _ _ s v' (λ job _. return-keeps Valid _ _ v')

  settle_job-Leaves :
      (outcome : WorkerOutcome host) (st : JobStatus)
      → Leaves Valid (settle_job host clock job_id outcome st) s
  unfolding settle_job
  settle_job-Leaves outcome cancel_requested =
      let v' = confirm_cancelled-Valid host clock job_id s v in
      bind-keeps Valid _ _ s v' (λ job _. return-keeps Valid _ _ v')
  settle_job-Leaves outcome running = record_outcome-Leaves outcome
  settle_job-Leaves outcome _ = return-keeps Valid _ s v

  settle_complete-Valid :
      (outcome : WorkerOutcome host) → Valid (settle_complete host clock job_id outcome s).1
  unfolding settle_complete
  settle_complete-Valid outcome =
      (load-keeps Valid host job_id _ s v
        (λ job r found shows. settle_job-Leaves outcome job.status)).left

status_snapshot-Valid : (host : Host) (s : Store) → Valid s → Valid (status_snapshot host s).1
unfolding status_snapshot
status_snapshot-Valid host s v =
    let v1 = list-keeps Valid host s v (of_status running) in
    let v2 = list-keeps Valid host _ v1 (of_status cancel_requested) in
    let v3 = recent_failed-keeps Valid host _ v2 10 in
    (bind-keeps Valid _ _ s v1 (λ a _.
      bind-keeps Valid _ _ _ v2
        (λ b _. bind-keeps Valid _ _ _ v3 (λ c _. return-keeps Valid _ _ v3)))).left

module _ (host : Host) where
  handle_worker-Valid :
      (clock : Reading) (event : WorkerEvent host) (d : Scheduler host)
      → Valid d.store
      → Valid (handle_worker host clock event d).1.store
  unfolding handle_worker record_progress
  handle_worker-Valid clock (progress job_id current message) d v =
      update_progress-Valid host d.store v job_id _
  handle_worker-Valid clock (complete_with job_id outcome) d v =
      settle_complete-Valid host clock d.store v job_id outcome

  no_answer-store :
      (r : Result (Unit {0}) × Scheduler host) → (no_answer host r).1.store ≡ r.1.store
  no_answer-store (ok _, d) = refl
  no_answer-store (err e, d) = refl

  -- A command keeps the schema.
  pub handle-Valid :
      (clock : Reading) (c : Command host) (d : Scheduler host)
      → Valid d.store
      → Valid (handle host clock c d).1.store
  unfolding handle
  handle-Valid clock (submit_job request) d v = submit-Valid host clock d.store v request
  handle-Valid clock (submit_scan project_id) d v =
      submit_full_scan-Valid host d.store v clock project_id
  handle-Valid clock (promote_job job_id p) d v = promote-Valid host d.store v job_id p
  handle-Valid clock (get_job job_id) d v = rw (load_job-same host job_id d.store) v
  handle-Valid clock (cancel_job job_id) d v = cancel-Valid host clock job_id d.store v
  handle-Valid clock (list_jobs filter) d v = list-keeps Valid host d.store v filter
  handle-Valid clock status d v = status_snapshot-Valid host d.store v
  handle-Valid clock (worker event) d v = rw no_answer-store (handle_worker-Valid clock event d v)
  handle-Valid clock shutdown d v = v

  pub fill_slot-store :
      (spawn : Spawn host) (job : Job host) (d : Scheduler host)
      → (fill_slot host spawn job d).store ≡ d.store
  unfolding fill_slot
  fill_slot-store spawn job d = ground arith

  after_claim-store :
      (spawn : Spawn host) (d : Scheduler host) (r : Result (Option (Job host))) (s : Store)
      → (after_claim host spawn d (r, s)).1.store ≡ s
  unfolding after_claim
  after_claim-store spawn d (err e) s = refl
  after_claim-store spawn d (ok none) s = refl
  after_claim-store spawn d (ok (some job)) s = fill_slot-store spawn job (record d { store = s })

  dispatch_slot-Valid :
      (clock : Reading) (spawn : Spawn host) (d : Scheduler host)
      → Valid d.store
      → (slot : Option ActiveJob) → Valid (dispatch_slot host clock spawn d slot).1.store
  unfolding dispatch_slot
  dispatch_slot-Valid clock spawn d v (some _) = v
  dispatch_slot-Valid clock spawn d v none =
      let r = claim_next_pending host clock provider_rust d.store in
      rw (after_claim-store spawn d r.0 r.1)
        (claim_next_pending-Valid host provider_rust d.store v clock)

  -- So does starting a job.
  pub dispatch-Valid :
      (clock : Reading) (spawn : Spawn host) (d : Scheduler host)
      → Valid d.store
      → Valid (dispatch host clock spawn d).1.store
  unfolding dispatch
  dispatch-Valid clock spawn d v = dispatch_slot-Valid clock spawn d v d.active

  -- The scheduler as it stands, running or not.
  abbrev pub at_rest : Outcome host → Scheduler host
  at_rest (running_on d) = d
  at_rest (ended d) = d

  dispatch_outcome-at_rest :
      (r : Result (Unit {0})) (d : Scheduler host) → at_rest (dispatch_outcome host (r, d)) ≡ d
  unfolding dispatch_outcome
  dispatch_outcome-at_rest (ok _) d = refl
  dispatch_outcome-at_rest (err e) d = refl

  started-Valid :
      (clock : Reading) (spawn : Spawn host) (d : Scheduler host)
      → Valid d.store
      → Valid (at_rest (dispatch_outcome host (dispatch host clock spawn d))).store
  started-Valid clock spawn d v =
      let r = dispatch host clock spawn d in
      rw (dispatch_outcome-at_rest r.0 r.1) (dispatch-Valid clock spawn d v)

  after_handle-Valid :
      (t : Turn host) (r : Result (Reply host)) (d : Scheduler host)
      → Valid d.store
      → Valid (at_rest (after_handle host t (r, d))).store
  unfolding after_handle
  after_handle-Valid t (err e) d v = v
  after_handle-Valid t (ok _) d v = started-Valid t.dispatched_at t.spawn d v

  handled-Valid :
      (t : Turn host) (d : Scheduler host) (c : Command host)
      → Valid d.store
      → Valid (at_rest (after_handle host t (handle host t.handled_at c d))).store
  handled-Valid t d c v =
      let r = handle host t.handled_at c d in
      after_handle-Valid t r.0 r.1 (handle-Valid t.handled_at c d v)

  run_command-Valid :
      (t : Turn host) (d : Scheduler host) (c : Command host)
      → Valid d.store
      → Valid (at_rest (run_command host t d c)).store
  unfolding run_command
  run_command-Valid t d shutdown v = v
  run_command-Valid t d (submit_job x) v = handled-Valid t d _ v
  run_command-Valid t d (submit_scan x) v = handled-Valid t d _ v
  run_command-Valid t d (promote_job x p) v = handled-Valid t d _ v
  run_command-Valid t d (get_job x) v = handled-Valid t d _ v
  run_command-Valid t d (cancel_job x) v = handled-Valid t d _ v
  run_command-Valid t d (list_jobs x) v = handled-Valid t d _ v
  run_command-Valid t d status v = handled-Valid t d _ v
  run_command-Valid t d (worker x) v = handled-Valid t d _ v

  receive-Valid :
      (t : Turn host) (d : Scheduler host) (inbox : List (Command host))
      → Valid d.store
      → Valid (at_rest (receive host t d inbox)).store
  unfolding receive
  receive-Valid t d [] v = v
  receive-Valid t d (c ∷ rest) v = run_command-Valid t (record d { inbox = rest }) c v

  rounds-Valid :
      (ts : List (Turn host)) (o : Outcome host)
      → Valid (at_rest o).store
      → Valid (at_rest (rounds host ts o)).store
  unfolding rounds round
  rounds-Valid [] o v = v
  rounds-Valid (t ∷ ts) (ended d) v = v
  rounds-Valid (t ∷ ts) (running_on d) v =
      rounds-Valid ts (round host t d) (receive-Valid t d (d.inbox ++ t.arrivals) v)

  -- From tables that satisfy the schema, the scheduler leads to tables that do, whatever commands
  -- and worker events arrive, whatever the clock shows, and whether workers start or not.
  pub run-Valid :
      (clock : Reading) (spawn : Spawn host) (turns : List (Turn host)) (s : Store)
      → Valid s
      → Valid (at_rest (run host clock spawn turns s)).store
  unfolding run
  run-Valid clock spawn turns s v = rounds-Valid turns _ (started-Valid clock spawn _ v)
