-- ===== src/Store/Valid/Submits.antt =====
-- `submit`, `submit_full_scan`, `promote` and `publish_provider` keep the schema.
use remy_cc.Prelude.{
  text_eq, ℕ, Bool, true, false, ◌&&◌, ◌≡◌, refl, Option, none, some, [], ◌∷◌, ◌++◌, Memᴰ, arith,
  Text, text_eq_iff, find_if, find_if-none, mem-find_if, find_if-some, update_if, ==_refl,
}
use remy_cc.Host.{Host, Reading}
use remy_cc.Job.{
  job_type_eq_refl, JobPriority, JobType, incremental_scan, full_scan, JobRow, ProjectRow, pending,
}
use remy_cc.Store.Monad.{Store, M, has_id, has_project_id, next_job_id, ◌>>=◌, return, insert_job}
use remy_cc.Store.Monad.Steps.{query_job-bind, insert_job-bind, update_jobs-then}
use remy_cc.Store.Load.{load_job}
use remy_cc.Store.Submit.{
  SubmitJob, SubmitResult, is_type, is_status, pending_row, absorbed_row, raise_priority,
  incremental_key, is_pending_of, enqueue, absorb_or_enqueue, submit_normalized, submit,
}
use remy_cc.Store.Valid.{checks, provider_ok, Valid}
use remy_cc.Store.Valid.Insert.{insert-Valid}
use remy_cc.Store.Valid.Calm.{IsCalm, calm-Valid}
use remy_cc.Store.Valid.Projects.{upsert_project-ok, upsert_project-Valid}
use remy_cc.Store.Valid.Rules.{
  Leaves, bind-keeps, lift-keeps, transaction-keeps, load-keeps, return-keeps,
}

pub raise_priority-IsCalm : (p : JobPriority) → IsCalm (raise_priority p)
raise_priority-IsCalm p = record {
  keys = record { keeps = λ r. (refl, (refl, refl, refl)) };
  status = λ r. refl;
  successor = λ r. refl;
}

-- The checks of a row do not read its priority.
pub raise_priority-Valid :
    (s : Store)
    → Valid s
    → (q : JobRow → Bool) (p : JobPriority)
    → Valid (record s { jobs = update_if q (raise_priority p) s.jobs })
unfolding checks
raise_priority-Valid s v q p =
    calm-Valid s q (raise_priority p) (raise_priority-IsCalm p) v (λ r m h c. c)

-- Registered: the table `projects` has the id.
abbrev pub HasProject : Store → ℕ → Type 0
HasProject s i = (p : ProjectRow) × (find_if (has_project_id i) s.projects ≡ some p)

module _ (s : Store) (v : Valid s) (project_id : ℕ) (registered : HasProject s project_id) where
  -- A fresh pending job may join where no pending job has its key.
  pub pending_row-Valid :
      (t : JobType) (db file : Text) (p : JobPriority) (now : ℕ) (key : Text)
      → ((y : JobRow) → Memᴰ y s.jobs → is_pending_of project_id t key y ≡ false)
      → Valid (record s {
        jobs = s.jobs ++ pending_row project_id t db file p now key (next_job_id s.jobs) ∷ [];
      })
  unfolding checks provider_ok text_eq
  pending_row-Valid t db file p now key free =
      insert-Valid s (pending_row project_id t db file p now key (next_job_id s.jobs)) v (record {
        new_id = refl;
        checked = refl;
        idle = λ e. cc;
        alone = λ _ y m waiting same.
            let (k0, k1, k2) = same in
            ground (arith, free y m, text_eq_iff y.dedupe_key key, job_type_eq_refl t);
        project = registered;
        successor = λ i e. cc;
      })

  -- An incremental job absorbed by a full scan that is there.
  absorbed_row-Valid :
      (db file : Text) (p : JobPriority) (now : ℕ) (key : Text) (full : JobRow)
      → Memᴰ full s.jobs
      → Valid (record s {
        jobs =
            s.jobs ++ absorbed_row project_id db file p now key full.id (next_job_id s.jobs) ∷ [];
      })
  unfolding checks provider_ok text_eq
  absorbed_row-Valid db file p now key full m =
      insert-Valid s (absorbed_row project_id db file p now key full.id (next_job_id s.jobs)) v
        (record {
          new_id = refl;
          checked = refl;
          idle = λ e. cc;
          alone = λ waiting. cc;
          project = registered;
          successor = λ i e. (full, m, cc);
        })

-- The tail of a submission that inserts a row.
module _ (host : Host) where
  abbrev pub inserted : (ℕ → JobRow) → Bool → M (SubmitResult host)
  inserted row created = do
    id ← insert_job row
    job ← load_job host id
    return (record { job = job; created = created })

module _ (host : Host) (project_id : ℕ) (db file : Text) (p : JobPriority) (now : ℕ) where
  -- The insertion of `row`, and the load of its id.
  insert-keeps :
      (s : Store) (row : ℕ → JobRow) (created : Bool)
      → Valid (record s { jobs = s.jobs ++ row (next_job_id s.jobs) ∷ [] })
      → Valid (inserted host row created s).1
  insert-keeps s row created v =
      rw insert_job-bind
        (load-keeps Valid host _ _ _ v (λ job r f h. return-keeps Valid _ _ v)).left

  enqueue-Valid :
      (s : Store)
      → Valid s
      → HasProject s project_id
      → (existing : Option JobRow)
      → find_if (is_pending_of project_id incremental_scan (incremental_key file)) s.jobs ≡ existing
      → Valid (enqueue host project_id db file p now existing s).1
  unfolding enqueue
  enqueue-Valid s v registered (some r) e =
      let v' = raise_priority-Valid s v (has_id r.id) p in
      rw update_jobs-then
        (load-keeps Valid host r.id _ _ v' (λ job r f h. return-keeps Valid _ _ v')).left
  enqueue-Valid s v registered none e = insert-keeps s _ true (
      pending_row-Valid s v project_id registered incremental_scan db file p now
        (incremental_key file) (find_if-none _ s.jobs e))

  absorb_or_enqueue-Valid :
      (s : Store)
      → Valid s
      → HasProject s project_id
      → (full : Option JobRow)
      → find_if (λ r. is_type project_id full_scan r && is_status pending r) s.jobs ≡ full
      → Valid (absorb_or_enqueue host project_id db file p now full s).1
  unfolding absorb_or_enqueue
  absorb_or_enqueue-Valid s v registered none e =
      rw query_job-bind (enqueue-Valid s v registered _ refl)
  absorb_or_enqueue-Valid s v registered (some full) e = insert-keeps s _ true (
      absorbed_row-Valid s v project_id registered db file p now (incremental_key file) full
        (mem-find_if _ s.jobs e).0)

module _ (host : Host) (clock : Reading) (s : Store) (v : Valid s) where
  submit_normalized-Leaves :
      (project db file : Text) (p : JobPriority) (now : ℕ)
      → Leaves Valid (submit_normalized host project db file p now) s
  unfolding submit_normalized
  submit_normalized-Leaves project db file p now =
      let v' = upsert_project-Valid project project db now s v in
      transaction-keeps Valid _ s v (
        bind-keeps Valid _ _ s v' (λ i e.
          let (p', found, id) = (upsert_project-ok project project db now s e).0 in
          let (m, _) = mem-find_if _ _ found in
          let registered = find_if-some (has_project_id i) _ m (rw id (==_refl i)) in
          record {
            left =
                rw query_job-bind
                  (absorb_or_enqueue-Valid host i db file p now _ v' registered _ refl);
          }))

  -- `submit` keeps the schema, on every branch.
  pub submit-Valid : (request : SubmitJob) → Valid (submit host clock request s).1
  unfolding submit
  submit-Valid request =
      (lift-keeps Valid _ _ s v (λ project _. lift-keeps Valid _ _ s v (λ db _.
        lift-keeps Valid _ _ s v (λ file _.
          lift-keeps Valid _ _ s v
            (λ now _. submit_normalized-Leaves project db file request.priority now))))).left
