-- ===== src/Store/Valid/Transitions.antt =====
-- `transition_job`, `cancel` and `confirm_cancelled` keep the schema.
use remy_cc.Prelude.{ℕ, true, false, ◌≡◌, refl, Option, none, some, Memᴰ, arith, update_if}
use remy_cc.Host.{Host, Reading}
use remy_cc.Job.{
  JobStatus, pending, running, cancel_requested, cancelled, superseded, status_eq, status_eq→eq,
  JobRow,
}
use remy_cc.Store.Monad.{Store, programs}
use remy_cc.Store.Transition.{
  at_status, set_running, set_requeued, set_cancel_requested, set_cancelled, set_superseded,
  apply_transition, transition_job, cancel_from, cancel, confirm_from, confirm_cancelled,
}
use remy_cc.Store.Valid.{checks, SameKey, IsPending, IsExecuting, Valid}
use remy_cc.Store.Valid.Update.{KeepsKeys, Alone-one, update-Valid}
use remy_cc.Store.Valid.Rules.{
  Leaves, bind-keeps, transaction-keeps, lift-keeps, load-keeps, only_load-keeps, return-keeps,
}

pub at_status→ :
    (job_id : ℕ) (from : JobStatus) (r : JobRow)
    → at_status job_id from r ≡ true
    → (r.id ≡ job_id) × (r.status ≡ from)
at_status→ job_id from r h = ground (arith, status_eq→eq r.status from)

-- What a change of the job `job_id` to the state `to` needs besides the source state.
pub record Admits (s : Store) (job_id : ℕ) (to : JobStatus) (by : Option ℕ) : Type 0 where
  pub queue :
      to ≡ pending
      → (x y : JobRow) → Memᴰ x s.jobs
      → Memᴰ y s.jobs
      → x.id ≡ job_id
      → IsPending y
      → SameKey x y
      → x.id ≡ y.id
  pub run :
      to ≡ running
      → (x y : JobRow) → Memᴰ x s.jobs
      → Memᴰ y s.jobs
      → x.id ≡ job_id
      → IsExecuting y
      → SameKey x y
      → x.id ≡ y.id
  pub supersede :
      to ≡ superseded → (i : ℕ) × (by ≡ some i) × ((t : JobRow) × Memᴰ t s.jobs × (t.id ≡ i))

module _ (s : Store) (v : Valid s) (job_id : ℕ) (from : JobStatus) where
  -- An `UPDATE … WHERE id = job_id AND status = from`, from what it does to one row.
  pub at_status-Valid :
      (f : JobRow → JobRow)
      → KeepsKeys f
      → ((r : JobRow) → r.status ≡ from → checks r ≡ true → checks (f r) ≡ true)
      → ((x y : JobRow)
          → Memᴰ x s.jobs
          → Memᴰ y s.jobs
          → x.id ≡ job_id
          → x.status ≡ from
          → IsPending (f x)
          → IsPending y
          → SameKey x y
          → x.id ≡ y.id)
      → ((x y : JobRow)
          → Memᴰ x s.jobs
          → Memᴰ y s.jobs
          → x.id ≡ job_id
          → x.status ≡ from
          → IsExecuting (f x)
          → IsExecuting y
          → SameKey x y
          → x.id ≡ y.id)
      → ((r : JobRow) (i : ℕ)
          → Memᴰ r s.jobs
          → (f r).superseded_by_job_id ≡ some i
          → (t : JobRow) × Memᴰ t s.jobs × (t.id ≡ i))
      → Valid (record s { jobs = update_if (at_status job_id from) f s.jobs })
  at_status-Valid f keeps chk pend exec succ =
      let one =
        λ (r : JobRow) (h : at_status job_id from r ≡ true). (at_status→ job_id from r h).0 in
      update-Valid s (at_status job_id from) f keeps v (record {
        checked = λ r m h. chk r (at_status→ job_id from r h).1 (v.checked r m);
        one_pending =
            Alone-one IsPending s (at_status job_id from) f job_id one
              (λ x y mx my h. let (e, st) = at_status→ job_id from x h in pend x y mx my e st);
        one_executing =
            Alone-one IsExecuting s (at_status job_id from) f job_id one
              (λ x y mx my h. let (e, st) = at_status→ job_id from x h in exec x y mx my e st);
        successor = λ r i m h by. succ r i m by;
      })

module _ (s : Store) (v : Valid s) (job_id now : ℕ) (by : Option ℕ) where
  abbrev Kept : JobStatus → JobStatus → Type 0
  Kept from to = Admits s job_id to by → Valid (apply_transition job_id from to now by s).1

  keys : (r : JobRow) → (r.id ≡ r.id) × SameKey r r
  keys r = (refl, (refl, refl, refl))

  run-Kept : Kept pending running
  unfolding programs apply_transition checks
  run-Kept a =
      at_status-Valid s v job_id pending (set_running now) (record { keeps = keys })
        (λ r e h. ground arith) (λ x y mx my e st p q k. cc)
        (λ x y mx my e st p q k. a.run refl x y mx my e q k) (λ r i m e. v.successor r i m e)

  requeue-Kept : Kept running pending
  unfolding programs apply_transition checks
  requeue-Kept a =
      at_status-Valid s v job_id running set_requeued (record { keeps = keys })
        (λ r e h. ground arith) (λ x y mx my e st p q k. a.queue refl x y mx my e q k)
        (λ x y mx my e st p q k. cc) (λ r i m e. v.successor r i m e)

  -- The job was executing before, so it is alone already.
  request_cancel-Kept : Kept running cancel_requested
  unfolding programs apply_transition checks
  request_cancel-Kept a =
      at_status-Valid s v job_id running set_cancel_requested (record { keeps = keys })
        (λ r e h. ground arith) (λ x y mx my e st p q k. cc)
        (λ x y mx my e st p q k. v.one_executing x y mx my (rw st) q k)
        (λ r i m e. v.successor r i m e)

  -- The changes to a final state.
  cancel-Kept :
      (from : JobStatus)
      → ((r : JobRow) → r.status ≡ from → checks r ≡ true → checks (set_cancelled now r) ≡ true)
      → Valid (record s { jobs = update_if (at_status job_id from) (set_cancelled now) s.jobs })
  cancel-Kept from chk =
      at_status-Valid s v job_id from (set_cancelled now) (record { keeps = keys }) chk
        (λ x y mx my e st p q k. cc) (λ x y mx my e st p q k. cc) (λ r i m e. v.successor r i m e)

  supersede-Kept :
      (from : JobStatus) (i : ℕ)
      → ((r : JobRow)
          → r.status ≡ from
          → checks r ≡ true
          → checks (set_superseded now (some i) r) ≡ true)
      → (t : JobRow) → Memᴰ t s.jobs
      → t.id ≡ i
      → Valid (record s {
        jobs = update_if (at_status job_id from) (set_superseded now (some i)) s.jobs;
      })
  supersede-Kept from i chk t mt et =
      at_status-Valid s v job_id from (set_superseded now (some i)) (record { keeps = keys }) chk
        (λ x y mx my e st p q k. cc) (λ x y mx my e st p q k. cc) (λ r n m e. (t, mt, cc))

-- A transition keeps the schema: one that is not allowed, or that needs a payload, changes nothing.
pub transition_job-Valid :
    (s : Store)
    → Valid s
    → (job_id : ℕ) (from to : JobStatus) (now : ℕ) (by : Option ℕ) → Admits s job_id to by
    → Valid (transition_job job_id from to now by s).1
unfolding programs transition_job checks
transition_job-Valid s v j pending running now by a = run-Kept s v j now by a
transition_job-Valid s v j running pending now by a = requeue-Kept s v j now by a
transition_job-Valid s v j running cancel_requested now by a = request_cancel-Kept s v j now by a
transition_job-Valid s v j pending cancelled now by a =
    cancel-Kept s v j now by pending (λ r e h. ground arith)
transition_job-Valid s v j cancel_requested cancelled now by a =
    cancel-Kept s v j now by cancel_requested (λ r e h. ground arith)
transition_job-Valid s v j pending superseded now by a =
    let (i, e, target) = a.supersede refl in
    let (t, mt, et) = target in
    rw e (supersede-Kept s v j now by pending i (λ r e h. ground arith) t mt et)
transition_job-Valid s v j running superseded now by a =
    let (i, e, target) = a.supersede refl in
    let (t, mt, et) = target in
    rw e (supersede-Kept s v j now by running i (λ r e h. ground arith) t mt et)
transition_job-Valid s v j _ _ now by a = v

-- A change to a state that needs nothing more.
pub Admits-final :
    (s : Store) (job_id : ℕ) (to : JobStatus) (by : Option ℕ)
    → status_eq to pending ≡ false
    → status_eq to running ≡ false
    → status_eq to superseded ≡ false
    → Admits s job_id to by
Admits-final s j to by h0 h1 h2 = record {
  queue = λ e. cc (rw e at h0);
  run = λ e. cc (rw e at h1);
  supersede = λ e. cc (rw e at h2);
}

cancel_from-Valid :
    (s : Store)
    → Valid s
    → (job_id now : ℕ) (st : JobStatus) → Valid (cancel_from job_id now st s).1
unfolding programs cancel_from
cancel_from-Valid s v j now pending =
    transition_job-Valid s v j pending cancelled now none
      (Admits-final s j cancelled none refl refl refl)
cancel_from-Valid s v j now running =
    transition_job-Valid s v j running cancel_requested now none
      (Admits-final s j cancel_requested none refl refl refl)
cancel_from-Valid s v j now _ = v

confirm_from-Valid :
    (host : Host) (s : Store)
    → Valid s
    → (job_id now : ℕ) (st : JobStatus) → Valid (confirm_from host job_id now st s).1
unfolding programs confirm_from
confirm_from-Valid host s v j now cancel_requested =
    transition_job-Valid s v j cancel_requested cancelled now none
      (Admits-final s j cancelled none refl refl refl)
confirm_from-Valid host s v j now _ = v

module _ (host : Host) (clock : Reading) (job_id : ℕ) (s : Store) (v : Valid s) where
  cancel-Leaves : Leaves Valid (cancel host clock job_id) s
  unfolding cancel
  cancel-Leaves = lift-keeps Valid _ _ s v (λ now _. transaction-keeps Valid _ s v (
      load-keeps Valid host job_id _ s v (λ current r found shows.
        let moved = cancel_from-Valid s v job_id now current.status in
        bind-keeps Valid _ _ s moved (λ changed e.
          load-keeps Valid host job_id _ _ moved
            (λ job r' found' shows'. return-keeps Valid _ _ moved)))))

  -- `cancel` keeps the schema, on every branch.
  pub cancel-Valid : Valid (cancel host clock job_id s).1
  cancel-Valid = cancel-Leaves.left

  confirm_cancelled-Leaves : Leaves Valid (confirm_cancelled host clock job_id) s
  unfolding confirm_cancelled
  confirm_cancelled-Leaves = lift-keeps Valid _ _ s v (λ now _. transaction-keeps Valid _ s v (
      load-keeps Valid host job_id _ s v (λ current r found shows.
        let moved = confirm_from-Valid host s v job_id now current.status in
        bind-keeps Valid _ _ s moved (λ changed e. only_load-keeps Valid host job_id _ moved))))

  -- `confirm_cancelled` keeps the schema, on every branch.
  pub confirm_cancelled-Valid : Valid (confirm_cancelled host clock job_id s).1
  confirm_cancelled-Valid = confirm_cancelled-Leaves.left
