-- ===== src/Store/Valid/Claims.antt =====
-- `claim_next_pending` takes the job that comes first among those it may take, and keeps the schema.
use remy_cc.Prelude.{
  ℕ, Bool, true, false, ◌≡◌, ◌⊎◌, refl, Option, none, some, inl, inr, List, arith, Text, text_eq,
  ==_refl, Bool-cases, mem-select_if, unique_of_count,
}
use remy_cc.Host.{Host, Reading}
use remy_cc.Job.{JobRow, pending, running, cancel_requested, status_eq, status_eq→eq}
use remy_cc.Store.Monad.{Store, M, ◌>>=◌, programs, has_id}
use remy_cc.Store.Monad.Steps.{update_jobs-then}
use remy_cc.Store.Submit.{provider_rust}
use remy_cc.Store.Claim.Order.{Claimable, is_claimable_iff, mem-first_by}
use remy_cc.Store.Claim.{
  runs_before, is_claimable, next_claim, query_next, stage_claimed, finish_claim, claim,
  claim_next_pending,
}
use remy_cc.Store.Valid.{checks, provider_ok, IsExecuting, Valid}
use remy_cc.Store.Valid.Calm.{IsCalm, calm-Valid}
use remy_cc.Store.Valid.FullScans.{provider_ok-guard}
use remy_cc.Store.Valid.Transitions.{Admits, transition_job-Valid}
use remy_cc.Store.Valid.Rules.{
  bind-keeps, lift-keeps, transaction-keeps, load-keeps, return-keeps, throw-keeps,
}

-- The row that is claimed may be claimed.
pub next_claim-Claimable :
    (jobs : List JobRow) {r : JobRow} → next_claim jobs ≡ some r → Claimable jobs r
next_claim-Claimable jobs {r} h =
    let (m, ok_row) = (mem-select_if (is_claimable jobs) jobs r).0 (mem-first_by runs_before _ h) in
    (is_claimable_iff jobs r m).0 ok_row

stage_claimed-IsCalm : (provider : Text) → IsCalm (stage_claimed provider)
stage_claimed-IsCalm provider = record {
  keys = record { keeps = λ r. (refl, (refl, refl, refl)) };
  status = λ r. refl;
  successor = λ r. refl;
}

executing_cases :
    (y : JobRow) → IsExecuting y → (y.status ≡ running) ⊎ (y.status ≡ cancel_requested)
executing_cases y busy = elim (Bool-cases (status_eq y.status running)) [
  | inl t ↦ inl (status_eq→eq y.status running t)
  | inr f ↦ inr (status_eq→eq y.status cancel_requested (ground arith))
]

module _ (host : Host) (provider : Text) (allowed : provider_ok provider ≡ true) (now : ℕ)
    (s : Store) (v : Valid s) where
  finish_claim-Valid :
      (job_id : ℕ) (moved : Bool) → Valid (finish_claim host provider job_id moved s).1
  unfolding finish_claim checks
  finish_claim-Valid job_id false = (throw-keeps Valid _ s v).left
  finish_claim-Valid job_id true =
      let v' =
        calm-Valid s (has_id job_id) (stage_claimed provider) (stage_claimed-IsCalm provider) v
          (λ r m h c. ground arith) in
      rw update_jobs-then
        (load-keeps Valid host job_id _ _ v' (λ job r f h. return-keeps Valid _ _ v')).left

  -- No other job of the key is executing, so the job may.
  Claimable-Admits : (r : JobRow) → Claimable s.jobs r → Admits s r.id running none
  Claimable-Admits r c = record {
    queue = λ e. cc;
    run = λ _ x y mx my e busy key.
        let same =
          unique_of_count (has_id r.id) s.jobs (v.job_ids r.id) mx c.member (rw e (==_refl r.id))
            (==_refl r.id) in
        absurd (c.unlocked y my (executing_cases y busy) (rw same at key));
    supersede = λ e. cc;
  }

pub query_next-bind :
    {B : Type 0} (s : Store) (f : Option JobRow → M B)
    → (query_next >>= f) s ≡ f (next_claim s.jobs) s
unfolding query_next programs
query_next-bind s f = refl

module _ (host : Host) (provider : Text) (s : Store) (v : Valid s) where
  claim-Valid :
      provider_ok provider ≡ true
      → (now : ℕ) (r : Option JobRow) → next_claim s.jobs ≡ r
      → Valid (claim host provider now r s).1
  unfolding claim
  claim-Valid allowed now none e = (return-keeps Valid _ s v).left
  claim-Valid allowed now (some r) e =
      let v' =
        transition_job-Valid s v r.id pending running now none
          (Claimable-Admits host provider allowed now s v r (next_claim-Claimable s.jobs e)) in
      (bind-keeps Valid _ _ s v' (λ moved _. record {
        left = finish_claim-Valid host provider allowed now _ v' r.id moved;
      })).left

  -- `claim_next_pending` keeps the schema, on every branch.
  pub claim_next_pending-Valid :
      (clock : Reading) → Valid (claim_next_pending host clock provider s).1
  unfolding claim_next_pending
  claim_next_pending-Valid clock = elim (Bool-cases (text_eq provider provider_rust)) [
    | inl t ↦
        rw t
          (lift-keeps Valid _ _ s v (λ now _. transaction-keeps Valid _ s v (record {
            left = rw query_next-bind (claim-Valid (provider_ok-guard provider t) now _ refl);
          }))).left
    | inr t ↦ rw t (throw-keeps Valid _ s v).left
  ]
