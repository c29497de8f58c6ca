-- ===== src/Scheduler/Slot/Cancels.antt =====
-- `Command::Cancel`: the flag of the worker follows the table (remy-cc/src/scheduler.rs, `run`, and
-- remy-cc/src/state.rs, `cancel`).
use remy_cc.Prelude.{
  ℕ, true, false, ◌≡◌, ◌≢◌, refl, sym, ◌∙◌, ap, Option, none, some, inl, inr, Memᴰ, arith, ◌==◌,
  ==_refl, find_if, count_if,
}
use remy_cc.Host.{Host, Reading}
use remy_cc.Job.{
  Result, ok, err, StateError, JobStatus, pending, running, cancel_requested, succeeded, failed,
  cancelled, superseded, status_eq_refl, status_eq→eq, JobRow,
}
use remy_cc.Store.Monad.{Store, has_id, programs}
use remy_cc.Store.Monad.Steps.{bind-ok, return-ok}
use remy_cc.Store.Monad.Atomic.{lift-ok, transaction-ok}
use remy_cc.Store.Load.Laws.{load_job-bind_ok}
use remy_cc.Store.Transition.{
  at_status, set_cancelled, set_cancel_requested, transition_job, CancelResult, cancel_from, cancel,
}
use remy_cc.Store.Valid.{Valid}
use remy_cc.Store.Valid.Transitions.{at_status→}
use remy_cc.Store.Runs.{update-SameRuns}
use remy_cc.Store.Runs.Changed.{
  found_row, changed_store, find-changed, mem-changed, changed-mem, changed-count,
}
use remy_cc.Store.Rollback.{cancel-IsAtomic}
use remy_cc.Scheduler.{ActiveJob, flag_cancel}
use remy_cc.Scheduler.Slot.{SlotState, SameRuns-SlotState}

module _ (host : Host) (job_id : ℕ) where
  -- The flag is left alone where the job is not being cancelled behind the command.
  flag_cancel-off :
      (o : CancelResult host) (active : Option ActiveJob)
      → o.job.status ≢ cancel_requested
      → flag_cancel host job_id (ok o) active ≡ active
  unfolding flag_cancel
  flag_cancel-off o none h = refl
  flag_cancel-off o (some a) h = ground (arith, status_eq→eq o.job.status cancel_requested)

  flag_cancel-unchanged :
      (o : CancelResult host) (active : Option ActiveJob)
      → o.changed ≡ false
      → flag_cancel host job_id (ok o) active ≡ active
  unfolding flag_cancel
  flag_cancel-unchanged o none h = refl
  flag_cancel-unchanged o (some a) h = rw h

  flag_cancel-on :
      (o : CancelResult host) (a : ActiveJob)
      → o.changed ≡ true
      → o.job.status ≡ cancel_requested
      → a.job_id ≡ job_id
      → flag_cancel host job_id (ok o) (some a) ≡ some (record a { cancel = true })
  unfolding flag_cancel
  flag_cancel-on o a h e i = ground (arith, ==_refl job_id, status_eq_refl cancel_requested)

  flag_cancel-err :
      (e : StateError) (active : Option ActiveJob) → flag_cancel host job_id (err e) active ≡ active
  unfolding flag_cancel
  flag_cancel-err e none = refl
  flag_cancel-err e (some a) = refl

  module _ (s : Store) (v : Valid s) (now : ℕ) (active : Option ActiveJob) (h : SlotState active s)
      (o : CancelResult host) (r r' : JobRow)
      (found : find_if (has_id job_id) s.jobs ≡ some r) where
    -- A pending job is cancelled at once.
    cancel_pending-SlotState :
        r.status ≡ pending
        → find_if (has_id job_id) (changed_store s job_id pending (set_cancelled now)).jobs
          ≡ some r'
        → o.job.status ≡ r'.status
        → SlotState
            (flag_cancel host job_id (ok o) active)
            (changed_store s job_id pending (set_cancelled now))
    cancel_pending-SlotState st found' shown =
        let e : r' ≡ set_cancelled now r =
          ground
            (arith, find-changed s job_id pending (set_cancelled now) (λ x. refl) r found st) in
        let off : o.job.status ≢ cancel_requested = λ p. cc (rw (shown, e) at p) in
        rw (flag_cancel-off o active off) (
          SameRuns-SlotState active
            (update-SameRuns s (at_status job_id pending) (set_cancelled now) (λ x. refl)
              (λ x t busy. ground (arith, at_status→ job_id pending x t)))
            h)

    running_seat :
        (active : Option ActiveJob)
        → SlotState active s
        → Memᴰ r s.jobs
        → r.id ≡ job_id
        → r.status ≡ running
        → o.changed ≡ true
        → o.job.status ≡ cancel_requested
        → SlotState
            (flag_cancel host job_id (ok o) active)
            (changed_store s job_id running set_cancel_requested)
    running_seat none h m i st changed requested = absurd (h r m (rw st))
    running_seat (some a) h m i st changed requested =
        let seat : r.id ≡ a.job_id = h.only r m (rw st) in
        rw (flag_cancel-on o a changed requested (sym seat ∙ i)) (record {
          only = λ x mx busy. elim (mem-changed s job_id running set_cancel_requested mx) [
            | inl (y, my, iy, sy, e) ↦ ap (λ (z : JobRow). z.id) e ∙ iy ∙ sym i ∙ seat
            | inr (mx', _) ↦ h.only x mx' busy
          ];
          row = (
            set_cancel_requested r,
            changed-mem s job_id running set_cancel_requested r m i st,
            seat,
            refl,
          );
        })

    -- A running job is asked to stop, and so is its worker.
    cancel_running-SlotState :
        r.status ≡ running
        → find_if (has_id job_id) (changed_store s job_id running set_cancel_requested).jobs
          ≡ some r'
        → o.job.status ≡ r'.status
        → o.changed ≡ (count_if (at_status job_id running) s.jobs == 1)
        → SlotState
            (flag_cancel host job_id (ok o) active)
            (changed_store s job_id running set_cancel_requested)
    cancel_running-SlotState st found' shown ch =
        let (m, i) = found_row s job_id found in
        let e : r' ≡ set_cancel_requested r =
          ground
            (arith, find-changed s job_id running set_cancel_requested (λ x. refl) r found st) in
        let changed : o.changed ≡ true =
          rw (ch, changed-count s job_id running set_cancel_requested v r m i st) refl in
        let requested : o.job.status ≡ cancel_requested = rw (shown, e) refl in
        running_seat active h m i st changed requested

    -- Each branch of the `match current.status`.
    cancel_from-SlotState :
        (st : JobStatus)
        → r.status ≡ st
        → (cancel_from job_id now st s).0 ≡ ok o.changed
        → find_if (has_id job_id) (cancel_from job_id now st s).1.jobs ≡ some r'
        → o.job.status ≡ r'.status
        → SlotState (flag_cancel host job_id (ok o) active) (cancel_from job_id now st s).1
    unfolding cancel_from transition_job programs
    cancel_from-SlotState pending st e found' shown = cancel_pending-SlotState st found' shown
    cancel_from-SlotState running st e found' shown =
        cancel_running-SlotState st found' shown (ground (arith, e))
    cancel_from-SlotState cancel_requested st e found' shown =
        rw (flag_cancel-unchanged o active (ground (arith, e))) h
    cancel_from-SlotState cancelled st e found' shown =
        rw (flag_cancel-unchanged o active (ground (arith, e))) h
    cancel_from-SlotState succeeded st e found' shown = cc
    cancel_from-SlotState failed st e found' shown = cc
    cancel_from-SlotState superseded st e found' shown = cc

module _ (host : Host) (clock : Reading) (job_id : ℕ) (s : Store) (v : Valid s)
    (active : Option ActiveJob) (h : SlotState active s) where
  cancel_ok-SlotState :
      (o : CancelResult host)
      → (cancel host clock job_id s).0 ≡ ok o
      → SlotState (flag_cancel host job_id (ok o) active) (cancel host clock job_id s).1
  unfolding cancel
  cancel_ok-SlotState o e =
      let (now, _, e1, same1) = lift-ok _ _ s e in
      let (e2, same2) = transaction-ok _ s e1 in
      let first = load_job-bind_ok host job_id _ s e2 in
      let second = bind-ok (cancel_from job_id now first.job.status) _ s first.second in
      let third = load_job-bind_ok host job_id _ _ second.second in
      let (rec, same3) = return-ok _ _ third.second in
      let same : (cancel host clock job_id s).1 ≡ (cancel_from job_id now first.job.status s).1 =
        same1 ∙ same2 ∙ first.after ∙ second.after ∙ third.after ∙ same3 in
      let changed : second.middle ≡ o.changed = ap (λ (x : CancelResult host). x.changed) rec in
      let shown : third.job.status ≡ o.job.status =
        ap (λ (x : CancelResult host). x.job.status) rec in
      rw same (
        cancel_from-SlotState host job_id s v now active h o first.row third.row first.found
          first.job.status (sym first.shows.status) (rw changed at second.first) third.found
          (sym shown ∙ third.shows.status))

  cancel_result-SlotState :
      (res : Result (CancelResult host))
      → (cancel host clock job_id s).0 ≡ res
      → SlotState (flag_cancel host job_id res active) (cancel host clock job_id s).1
  cancel_result-SlotState (ok o) e = cancel_ok-SlotState o e
  cancel_result-SlotState (err x) e =
      rw (flag_cancel-err host job_id x active, (cancel-IsAtomic host clock s job_id).undone e) h

  -- On valid tables with a right slot, behind `Cancel` the slot is still the job that executes, and its
  -- worker is told to stop exactly if the job is about to be cancelled, on every branch of `cancel`, its
  -- errors included.
  pub cancel-SlotState :
      SlotState
        (flag_cancel host job_id (cancel host clock job_id s).0 active)
        (cancel host clock job_id s).1
  cancel-SlotState = cancel_result-SlotState (cancel host clock job_id s).0 refl
