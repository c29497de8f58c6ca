-- ===== src/Scheduler/Slot/Settles.antt =====
-- `WorkerEvent::Complete`: the slot is freed when its job has ended (remy-cc/src/scheduler.rs,
-- `handle_worker`).
use remy_cc.Prelude.{
  ℕ, true, false, ◌||◌, ◌⊎◌, ◌≡◌, ◌≢◌, refl, sym, ◌∙◌, Option, none, some, inl, inr, arith, ◌==◌,
  ==_refl, find_if,
}
use remy_cc.Host.{Host, Reading}
use remy_cc.Job.{
  status_eq, Result, ok, err, JobStatus, pending, running, cancel_requested, succeeded, failed,
  cancelled, superseded, JobRow, Job,
}
use remy_cc.Store.Monad.{Store, has_id, return}
use remy_cc.Store.Monad.Steps.{bind-ok, return-ok}
use remy_cc.Store.Monad.Atomic.{IsAtomic, bind_return-IsAtomic, return-IsAtomic, bind_same-IsAtomic}
use remy_cc.Store.Load.{load_job}
use remy_cc.Store.Load.Laws.{load_job-bind_ok, load_job-same}
use remy_cc.Store.Transition.{set_cancelled, confirm_cancelled}
use remy_cc.Store.Complete.{
  set_completed, result_column, error_column, complete, complete_success, complete_failure,
}
use remy_cc.Store.Valid.{IsExecuting, Valid}
use remy_cc.Store.Runs.Changed.{same_row, found_row, changed_store, at_status-found, mem-changed}
use remy_cc.Store.Runs.Finished.{confirm_cancelled-ok, complete-ok}
use remy_cc.Store.Rollback.{confirm_cancelled-IsAtomic, complete-IsAtomic}
use remy_cc.Scheduler.{
  ActiveJob, WorkerOutcome, succeeded_with, failed_with, record_outcome, settle_job,
  settle_complete, free_slot, slot_after,
}
use remy_cc.Scheduler.Slot.{SlotState, seat-IsExecuting}

module _ (host : Host) (s : Store) (v : Valid s) (j : ℕ) (active : Option ActiveJob)
    (h : SlotState active s) (r : JobRow) (found : find_if (has_id j) s.jobs ≡ some r) where
  free_seat : (a : ActiveJob) → a.job_id ≡ j → free_slot host j (some a) ≡ none
  unfolding free_slot
  free_seat a e = ground (arith, ==_refl j)

  -- An executing job is the one in the slot; when it ends, nothing executes.
  ended-SlotState :
      (from : JobStatus) (f : JobRow → JobRow)
      → r.status ≡ from
      → IsExecuting r
      → ((x : JobRow) → ¬ IsExecuting (f x))
      → (slot : Option ActiveJob) → SlotState slot s
      → SlotState (free_slot host j slot) (changed_store s j from f)
  ended-SlotState from f st busy idle none h = absurd (h r (found_row s j found).0 busy)
  ended-SlotState from f st busy idle (some a) h =
      let (m, i) = found_row s j found in
      let seat = h.only r m busy in
      rw (free_seat a (sym seat ∙ i)) (λ x mx busy_x. elim (mem-changed s j from f mx) [
        | inl (y, my, iy, sy, e) ↦ idle y (rw e at busy_x)
        | inr (mx', off) ↦
            let same : x ≡ r = same_row s v x r mx' m (h.only x mx' busy_x ∙ sym seat) in
            let on = at_status-found s j from f r i st in cc
      ])

  -- The slot is not of a job that does not execute.
  kept-SlotState :
      ¬ IsExecuting r
      → (slot : Option ActiveJob) → SlotState slot s
      → SlotState (free_slot host j slot) s
  unfolding free_slot
  kept-SlotState idle none h = h
  kept-SlotState idle (some a) h =
      let (m, i) = found_row s j found in
      let (q, mq, iq, sq) = h.row in
      let other : a.job_id ≢ j = λ e.
        let same : q ≡ r = same_row s v q r mq m (iq ∙ e ∙ sym i) in
        idle (rw same at (seat-IsExecuting a.cancel q sq)) in
      let off : (a.job_id == j) ≡ false = ground arith in rw off h

module _ (host : Host) (clock : Reading) (j : ℕ) (s : Store) (v : Valid s)
    (active : Option ActiveJob) (h : SlotState active s) where
  complete-SlotState :
      (st : JobStatus) (payload : host.Value) (job : Job host)
      → (st ≡ succeeded) ⊎ (st ≡ failed)
      → (complete host clock j st payload s).0 ≡ ok job
      → SlotState (free_slot host j active) (complete host clock j st payload s).1
  complete-SlotState st payload job final e =
      let c = complete-ok host clock j s st payload job e in
      let f = set_completed st (result_column st c.encoded) (error_column st c.encoded) c.now in
      let idle : (x : JobRow) → ¬ IsExecuting (f x) = λ x busy. ended_idle st final busy in
      rw c.after (
        ended-SlotState host s v j active h c.row c.found running f c.from (rw c.from) idle active
          h)
    where
      ended_idle :
          (st : JobStatus)
          → (st ≡ succeeded) ⊎ (st ≡ failed)
          → ¬ ((status_eq st running || status_eq st cancel_requested) ≡ true)
      ended_idle st (inl e) busy = cc (rw e at busy)
      ended_idle st (inr e) busy = cc (rw e at busy)

  record_outcome-SlotState :
      (outcome : WorkerOutcome host) {u : Unit {0}}
      → (record_outcome host clock j outcome s).0 ≡ ok u
      → SlotState (free_slot host j active) (record_outcome host clock j outcome s).1
  unfolding record_outcome
  record_outcome-SlotState (succeeded_with x) e =
      let w = bind-ok (complete_success host clock j x) _ s e in
      rw (w.after ∙ (return-ok _ _ w.second).1)
        (complete-SlotState succeeded x w.middle (inl refl) w.first)
  record_outcome-SlotState (failed_with x) e =
      let w = bind-ok (complete_failure host clock j x) _ s e in
      rw (w.after ∙ (return-ok _ _ w.second).1)
        (complete-SlotState failed x w.middle (inr refl) w.first)

  unsettled-SlotState :
      (r : JobRow)
      → find_if (has_id j) s.jobs ≡ some r
      → ¬ IsExecuting r
      → {u : Unit {0}} → (return (tt {0}) s).0 ≡ ok u
      → SlotState (free_slot host j active) (return (tt {0}) s).1
  unsettled-SlotState r found idle e =
      rw (return-ok _ s e).1 (kept-SlotState host s v j active h r found idle active h)

  settle_job-SlotState :
      (outcome : WorkerOutcome host) (r : JobRow)
      → find_if (has_id j) s.jobs ≡ some r
      → (st : JobStatus) → r.status ≡ st
      → {u : Unit {0}} → (settle_job host clock j outcome st s).0 ≡ ok u
      → SlotState (free_slot host j active) (settle_job host clock j outcome st s).1
  unfolding settle_job
  settle_job-SlotState outcome r found cancel_requested from e =
      let w = bind-ok (confirm_cancelled host clock j) _ s e in
      let c = confirm_cancelled-ok host clock j s w.middle w.first in
      rw (w.after ∙ (return-ok _ _ w.second).1 ∙ c.after) (
        ended-SlotState host s v j active h c.row c.found cancel_requested (set_cancelled c.now)
          c.from (rw c.from) (λ x busy. cc) active h)
  settle_job-SlotState outcome r found running from e = record_outcome-SlotState outcome e
  settle_job-SlotState outcome r found pending from e =
      unsettled-SlotState r found (λ busy. cc (rw from at busy)) e
  settle_job-SlotState outcome r found succeeded from e =
      unsettled-SlotState r found (λ busy. cc (rw from at busy)) e
  settle_job-SlotState outcome r found failed from e =
      unsettled-SlotState r found (λ busy. cc (rw from at busy)) e
  settle_job-SlotState outcome r found cancelled from e =
      unsettled-SlotState r found (λ busy. cc (rw from at busy)) e
  settle_job-SlotState outcome r found superseded from e =
      unsettled-SlotState r found (λ busy. cc (rw from at busy)) e

  settle_complete_ok-SlotState :
      (outcome : WorkerOutcome host) {u : Unit {0}}
      → (settle_complete host clock j outcome s).0 ≡ ok u
      → SlotState (free_slot host j active) (settle_complete host clock j outcome s).1
  unfolding settle_complete
  settle_complete_ok-SlotState outcome e =
      let first = load_job-bind_ok host j _ s e in
      rw first.after (
        settle_job-SlotState outcome first.row first.found first.job.status (sym first.shows.status)
          first.second)

  record_outcome-IsAtomic :
      (outcome : WorkerOutcome host) → IsAtomic (record_outcome host clock j outcome) s
  unfolding record_outcome
  record_outcome-IsAtomic (succeeded_with x) =
      bind_return-IsAtomic (complete_success host clock j x) _ s
        (complete-IsAtomic host clock s j succeeded x)
  record_outcome-IsAtomic (failed_with x) =
      bind_return-IsAtomic (complete_failure host clock j x) _ s
        (complete-IsAtomic host clock s j failed x)

  settle_job-IsAtomic :
      (outcome : WorkerOutcome host) (st : JobStatus)
      → IsAtomic (settle_job host clock j outcome st) s
  unfolding settle_job
  settle_job-IsAtomic outcome cancel_requested =
      bind_return-IsAtomic (confirm_cancelled host clock j) _ s
        (confirm_cancelled-IsAtomic host clock s j)
  settle_job-IsAtomic outcome running = record_outcome-IsAtomic outcome
  settle_job-IsAtomic outcome _ = return-IsAtomic _ s

  settle_complete-IsAtomic :
      (outcome : WorkerOutcome host) → IsAtomic (settle_complete host clock j outcome) s
  unfolding settle_complete
  settle_complete-IsAtomic outcome =
      bind_same-IsAtomic (load_job host j) _ s (load_job-same host j s)
        (λ job. settle_job-IsAtomic outcome job.status)

  settle_result-SlotState :
      (outcome : WorkerOutcome host) (res : Result (Unit {0}))
      → (settle_complete host clock j outcome s).0 ≡ res
      → SlotState (slot_after host j res active) (settle_complete host clock j outcome s).1
  settle_result-SlotState outcome (ok u) e = settle_complete_ok-SlotState outcome e
  settle_result-SlotState outcome (err x) e = rw ((settle_complete-IsAtomic outcome).undone e) h

  -- On valid tables with a right slot, behind a `Complete` event the slot is right, whether its job ended,
  -- the event was late or of another job, or the event failed.
  pub settle_complete-SlotState :
      (outcome : WorkerOutcome host)
      → SlotState
          (slot_after host j (settle_complete host clock j outcome s).0 active)
          (settle_complete host clock j outcome s).1
  settle_complete-SlotState outcome = settle_result-SlotState outcome _ refl
