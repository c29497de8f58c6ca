-- ===== src/Scheduler/Work/Rounds.antt =====
-- Every round of the loop keeps the slot right (remy-cc/src/scheduler.rs, `run`).
use remy_cc.Prelude.{◌≡◌, refl, Option, none, some, List, [], ◌∷◌, ◌++◌}
use remy_cc.Host.{Host, Reading}
use remy_cc.Job.{Result, ok, err}
use remy_cc.Store.Monad.{Store, now_millis}
use remy_cc.Store.Valid.{Valid}
use remy_cc.Scheduler.{
  ActiveJob, Command, submit_job, submit_scan, promote_job, get_job, cancel_job, list_jobs, status,
  worker, shutdown, Reply, Scheduler, handle, Spawn, dispatch_slot, dispatch, Turn, Outcome,
  running_on, ended, dispatch_outcome, after_handle, run_command, receive, round, rounds, run,
}
use remy_cc.Scheduler.Schema.{dispatch-Valid}
use remy_cc.Scheduler.Slot.{NoneExecuting}
use remy_cc.Scheduler.Work.{Works, IsGood, IsFilled, dispatch_free, handle-Works}

module _ (host : Host) where
  dispatch_slot-IsFilled :
      (clock : Reading) (spawn : Spawn host) (d : Scheduler host)
      → Works host d
      → (slot : Option ActiveJob) → d.active ≡ slot
      → IsFilled host (dispatch_slot host clock spawn d slot)
  unfolding dispatch_slot
  dispatch_slot-IsFilled clock spawn d w none e =
      dispatch_free host clock spawn d w.valid (rw e at w.slot) (now_millis clock) refl e
  dispatch_slot-IsFilled clock spawn d w (some a) e = (w.slot, λ free. cc)

  dispatch-IsFilled :
      (clock : Reading) (spawn : Spawn host) (d : Scheduler host)
      → Works host d
      → IsFilled host (dispatch host clock spawn d)
  unfolding dispatch
  dispatch-IsFilled clock spawn d w = dispatch_slot-IsFilled clock spawn d w d.active refl

  dispatch_outcome-IsGood :
      (r : Result (Unit {0})) (d : Scheduler host)
      → Valid d.store
      → IsFilled host (r, d)
      → IsGood host (dispatch_outcome host (r, d))
  unfolding dispatch_outcome
  dispatch_outcome-IsGood (ok _) d v (slot, busy) = (record { valid = v; slot = slot }, busy)
  dispatch_outcome-IsGood (err e) d v slot = record { valid = v; slot = slot }

  dispatched-IsGood :
      (clock : Reading) (spawn : Spawn host) (d : Scheduler host)
      → Works host d
      → IsGood host (dispatch_outcome host (dispatch host clock spawn d))
  dispatched-IsGood clock spawn d w =
      let r = dispatch host clock spawn d in
      dispatch_outcome-IsGood r.0 r.1 (dispatch-Valid host clock spawn d w.valid)
        (dispatch-IsFilled clock spawn d w)

  after_handle-IsGood :
      (t : Turn host) (r : Result (Reply host)) (d : Scheduler host)
      → Works host d
      → IsGood host (after_handle host t (r, d))
  unfolding after_handle
  after_handle-IsGood t (err e) d w = w
  after_handle-IsGood t (ok _) d w = dispatched-IsGood t.dispatched_at t.spawn d w

  handled-IsGood :
      (t : Turn host) (d : Scheduler host) (c : Command host)
      → Works host d
      → IsGood host (after_handle host t (handle host t.handled_at c d))
  handled-IsGood t d c w =
      let r = handle host t.handled_at c d in
      after_handle-IsGood t r.0 r.1 (handle-Works host t.handled_at c d w)

  run_command-IsGood :
      (t : Turn host) (d : Scheduler host) (c : Command host)
      → Works host d
      → IsGood host (run_command host t d c)
  unfolding run_command
  run_command-IsGood t d shutdown w = w
  run_command-IsGood t d (submit_job x) w = handled-IsGood t d _ w
  run_command-IsGood t d (submit_scan x) w = handled-IsGood t d _ w
  run_command-IsGood t d (promote_job x p) w = handled-IsGood t d _ w
  run_command-IsGood t d (get_job x) w = handled-IsGood t d _ w
  run_command-IsGood t d (cancel_job x) w = handled-IsGood t d _ w
  run_command-IsGood t d (list_jobs x) w = handled-IsGood t d _ w
  run_command-IsGood t d status w = handled-IsGood t d _ w
  run_command-IsGood t d (worker x) w = handled-IsGood t d _ w

  receive-IsGood :
      (t : Turn host) (d : Scheduler host) (inbox : List (Command host))
      → IsGood host (running_on d)
      → IsGood host (receive host t d inbox)
  unfolding receive
  receive-IsGood t d [] good = good
  receive-IsGood t d (c ∷ rest) (w, _) =
      run_command-IsGood t (record d { inbox = rest }) c (record { valid = w.valid; slot = w.slot })

  rounds-IsGood :
      (ts : List (Turn host)) (o : Outcome host) → IsGood host o → IsGood host (rounds host ts o)
  unfolding rounds round
  rounds-IsGood [] o good = good
  rounds-IsGood (t ∷ ts) (ended d) good = good
  rounds-IsGood (t ∷ ts) (running_on d) good =
      rounds-IsGood ts (round host t d) (receive-IsGood t d (d.inbox ++ t.arrivals) good)

  -- The scheduler starts on tables that satisfy the schema and in which no job executes, as recovery
  -- leaves them. Then in every round, whatever commands and worker events arrive, whatever the
  -- clock shows and whether workers start or not: the tables satisfy the schema; if the slot is free
  -- then no job executes, and otherwise exactly the job in the slot does, about to be cancelled if the
  -- slot's flag is set and running if not; and while the loop goes on, a free slot means that no job waits.
  pub run-IsGood :
      (clock : Reading) (spawn : Spawn host) (turns : List (Turn host)) (s : Store)
      → Valid s
      → NoneExecuting s
      → IsGood host (run host clock spawn turns s)
  unfolding run
  run-IsGood clock spawn turns s v idle =
      rounds-IsGood turns _ (dispatched-IsGood clock spawn _ (record { valid = v; slot = idle }))
