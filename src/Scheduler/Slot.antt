-- ===== src/Scheduler/Slot.antt =====
-- The slot of the scheduler against the table of jobs (remy-cc/src/scheduler.rs, `active`).
pub mod Cancels
pub mod Settles
pub mod Claimed
use remy_cc.Prelude.{
  ℕ, Bool, true, false, ◌≡◌, refl, sym, ◌∙◌, ap, Option, none, some, Memᴰ, if◌then◌else◌, ◌==◌,
  ==_refl, unique_of_count, mem-find_if, find_if, arith,
}
use remy_cc.Job.{JobStatus, running, cancel_requested, JobRow}
use remy_cc.Store.Monad.{Store, has_id}
use remy_cc.Store.Valid.{IsExecuting, Valid}
use remy_cc.Store.Runs.{SameRuns, IsExecuting-by}
use remy_cc.Scheduler.{ActiveJob}

-- The state in the table of the job in the slot.
abbrev pub seat_status : Bool → JobStatus
seat_status cancel = if cancel then cancel_requested else running

-- The job in the slot is the one that executes, and its flag is set if it was asked to stop.
pub record Seated (a : ActiveJob) (s : Store) : Type 0 where
  pub only : (x : JobRow) → Memᴰ x s.jobs → IsExecuting x → x.id ≡ a.job_id
  pub row : (r : JobRow) × Memᴰ r s.jobs × (r.id ≡ a.job_id) × (r.status ≡ seat_status a.cancel)

abbrev pub NoneExecuting : Store → Type 0
NoneExecuting s = (x : JobRow) → Memᴰ x s.jobs → ¬ IsExecuting x

abbrev pub SlotState : Option ActiveJob → Store → Type 0
SlotState none s = NoneExecuting s
SlotState (some a) s = Seated a s

pub seat-IsExecuting : (c : Bool) (r : JobRow) → r.status ≡ seat_status c → IsExecuting r
seat-IsExecuting true r e = rw e
seat-IsExecuting false r e = rw e

-- What leaves the executing jobs alone leaves the slot right.
pub SameRuns-SlotState :
    {s t : Store} (active : Option ActiveJob)
    → SameRuns s t
    → SlotState active s
    → SlotState active t
SameRuns-SlotState none same h =
    λ x m e. let (y, my, yi, ys) = same.back x m e in h y my (IsExecuting-by x y ys e)
SameRuns-SlotState (some a) same h =
    let (r, mr, ri, rs) = h.row in
    let (z, mz, zi, zs) = same.forth r mr (seat-IsExecuting a.cancel r rs) in
    record {
      only = λ x m e.
          let (y, my, yi, ys) = same.back x m e in sym yi ∙ h.only y my (IsExecuting-by x y ys e);
      row = (z, mz, zi ∙ ri, zs ∙ rs);
    }
