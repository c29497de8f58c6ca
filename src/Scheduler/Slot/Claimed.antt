-- ===== src/Scheduler/Slot/Claimed.antt =====
-- `dispatch`: the job that is claimed takes the free slot, and a slot stays free only if no job waits
-- (remy-cc/src/scheduler.rs).
use remy_cc.Prelude.{
  ℕ, true, false, ◌≡◌, refl, sym, ◌∙◌, ap, none, some, inl, inr, Memᴰ, arith, mem-update_if,
  ==_refl, select_if, mem-select_if, any_if-none, not-mem-nil,
}
use remy_cc.Host.{Host}
use remy_cc.Job.{pending, status_eq_refl, JobRow, Job}
use remy_cc.Store.Monad.{Store, has_id}
use remy_cc.Store.Load.Laws.{Shows}
use remy_cc.Store.Transition.{set_running}
use remy_cc.Store.Submit.{provider_rust}
use remy_cc.Store.Claim.Order.{first_by-none}
use remy_cc.Store.Claim.{runs_before, locks, is_claimable, next_claim, stage_claimed}
use remy_cc.Store.Valid.{IsPending}
use remy_cc.Store.Valid.Claims.{next_claim-Claimable}
use remy_cc.Store.Runs.{update-SameRuns, IsExecuting-by}
use remy_cc.Store.Runs.Changed.{changed_store, mem-changed, changed-mem}
use remy_cc.Store.Runs.Claimed.{claimed_store}
use remy_cc.Scheduler.Slot.{NoneExecuting, Seated}

-- No job waits.
abbrev pub NonePending : Store → Type 0
NonePending s = (x : JobRow) → Memᴰ x s.jobs → ¬ IsPending x

-- With no job executing, a claim that finds nothing means that no job waits.
pub next_claim-NonePending :
    (s : Store) → NoneExecuting s → next_claim s.jobs ≡ none → NonePending s
unfolding is_claimable
next_claim-NonePending s idle none_next x m waiting =
    let free = any_if-none (locks x) s.jobs (λ y my. ground (arith, idle y my)) in
    let claimable : is_claimable s.jobs x ≡ true = ground (arith, status_eq_refl pending) in
    let empty = first_by-none runs_before (select_if (is_claimable s.jobs) s.jobs) none_next in
    not-mem-nil (rw empty at ((mem-select_if (is_claimable s.jobs) s.jobs x).1 (m, claimable)))

module _ (host : Host) (now : ℕ) (s : Store) (idle : NoneExecuting s) where
  pub claimed-Seated :
      (r : JobRow) (job : Job host)
      → next_claim s.jobs ≡ some r
      → Shows host (stage_claimed provider_rust (set_running now r)) job
      → Seated (record { job_id = job.id; cancel = false }) (claimed_store provider_rust now r s)
  claimed-Seated r job e shows =
      let c = next_claim-Claimable s.jobs e in
      let t = changed_store s r.id pending (set_running now) in
      let stage = stage_claimed provider_rust in
      let same = update-SameRuns t (has_id r.id) stage (λ x. refl) (λ x h e. refl) in
      let placed = changed-mem s r.id pending (set_running now) r c.member refl c.waiting in
      record {
        only = λ x mx busy.
            let (y, my, yi, ys) = same.back x mx busy in
            let busy_y = IsExecuting-by x y ys busy in
            sym yi
            ∙ (elim (mem-changed s r.id pending (set_running now) my) [
              | inl (z, mz, iz, sz, ez) ↦ ap (λ (q : JobRow). q.id) ez ∙ iz
              | inr (my', _) ↦ absurd (idle y my' busy_y)
            ])
            ∙ sym shows.id;
        row = (
          stage (set_running now r),
          rw (==_refl r.id) at (mem-update_if (has_id r.id) stage t.jobs placed),
          sym shows.id,
          refl,
        );
      }
