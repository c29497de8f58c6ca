-- ===== src/Store/Valid/FullScans.antt =====
-- `submit_full_scan`, `promote` and `publish_provider` keep the schema.
use remy_cc.Prelude.{
  ℕ, Bool, true, ◌||◌, ◌&&◌, ◌≡◌, refl, Option, none, some, inl, inr, [], ◌∷◌, ◌++◌, Memᴰ, arith,
  Text, codes, find_if, find_if-none, mem-append_last, update_if, text_eq, text_eq_iff, Bool-cases,
  sym, subst,
}
use remy_cc.Host.{Host, Reading}
use remy_cc.Job.{
  JobPriority, background, incremental_scan, full_scan, JobRow, ProjectRow, PublishedProvider,
  pending,
}
use remy_cc.Store.Monad.{Store, has_project_id, next_job_id}
use remy_cc.Store.Monad.Steps.{
  query_project-bind, query_job-bind, insert_job-bind, update_jobs-then, update_jobs-bind,
}
use remy_cc.Store.Transition.{set_superseded}
use remy_cc.Store.Submit.{
  is_type, is_status, is_executing, pending_row, full_scan_dedupe_key, start_full_scan,
  full_scan_of, submit_full_scan, promote, publish_provider, provider_rust,
}
use remy_cc.Store.Valid.{checks, published_ok, provider_ok, Valid}
use remy_cc.Store.Valid.Update.{update-Valid}
use remy_cc.Store.Valid.Submits.{HasProject, pending_row-Valid, raise_priority-Valid}
use remy_cc.Store.Valid.Rules.{lift-keeps, transaction-keeps, load-keeps, return-keeps, throw-keeps}

-- The pending incremental jobs of a project.
abbrev pub is_absorbed : ℕ → JobRow → Bool
is_absorbed project_id r = is_type project_id incremental_scan r && is_status pending r

-- Pending jobs become superseded by a job that is there, all in one statement.
supersede_all-Valid :
    (s : Store)
    → Valid s
    → (project_id now : ℕ) (t : JobRow) → Memᴰ t s.jobs
    → Valid (record s {
      jobs = update_if (is_absorbed project_id) (set_superseded now (some t.id)) s.jobs;
    })
unfolding checks
supersede_all-Valid s v project_id now t m =
    update-Valid s (is_absorbed project_id) (set_superseded now (some t.id))
      (record { keeps = λ r. (refl, (refl, refl, refl)) }) v
      (record {
        checked = λ r mr h. ground (arith, v.checked r mr);
        one_pending = λ x y mx my h e. cc;
        one_executing = λ x y mx my h e. cc;
        successor = λ r i mr h e. (t, m, cc);
      })

-- The guard on the provider is what the check on the column asks for.
pub provider_ok-guard :
    (provider : Text) → text_eq provider provider_rust ≡ true → provider_ok provider ≡ true
unfolding provider_ok text_eq
provider_ok-guard provider t =
    subst (λ z. provider_ok z ≡ true) (sym ((text_eq_iff provider provider_rust).0 t)) refl

module _ (host : Host) (project_id now : ℕ) where
  start_full_scan-Valid :
      (s : Store)
      → Valid s
      → HasProject s project_id
      → (db : Text) (existing : Option JobRow)
      → find_if
          (λ r. is_type project_id full_scan r && (is_status pending r || is_executing r))
          s.jobs
        ≡ existing
      → Valid (start_full_scan host project_id db now existing s).1
  unfolding start_full_scan
  start_full_scan-Valid s v registered db (some r) e =
      (load-keeps Valid host r.id _ s v (λ job r f h. return-keeps Valid _ _ v)).left
  start_full_scan-Valid s v registered db none e =
      let row =
        pending_row project_id full_scan db (codes ".") background now full_scan_dedupe_key
          (next_job_id s.jobs) in
      let free = λ (y : JobRow) (m : Memᴰ y s.jobs). find_if-none _ s.jobs e y m in
      let v1 =
        pending_row-Valid s v project_id registered full_scan db (codes ".") background now
          full_scan_dedupe_key (λ y m. ground (arith, free y m)) in
      let v2 =
        supersede_all-Valid (record s { jobs = s.jobs ++ row ∷ [] }) v1 project_id now row
          (mem-append_last s.jobs) in
      rw insert_job-bind (
        rw update_jobs-then
          (load-keeps Valid host _ _ _ v2 (λ job r f h. return-keeps Valid _ _ v2)).left)

  full_scan_of-Valid :
      (s : Store)
      → Valid s
      → (q : Option ProjectRow) → find_if (has_project_id project_id) s.projects ≡ q
      → Valid (full_scan_of host project_id now q s).1
  unfolding full_scan_of
  full_scan_of-Valid s v none e = (throw-keeps Valid _ s v).left
  full_scan_of-Valid s v (some p) e =
      rw query_job-bind (start_full_scan-Valid s v (p, e) p.db_path _ refl)

module _ (host : Host) (s : Store) (v : Valid s) where
  -- `submit_full_scan` keeps the schema, on every branch.
  pub submit_full_scan-Valid :
      (clock : Reading) (project_id : ℕ) → Valid (submit_full_scan host clock project_id s).1
  unfolding submit_full_scan
  submit_full_scan-Valid clock project_id =
      (lift-keeps Valid _ _ s v (λ now _. transaction-keeps Valid _ s v (record {
        left = rw query_project-bind (full_scan_of-Valid host project_id now s v _ refl);
      }))).left

  -- `promote` keeps the schema, on every branch.
  pub promote-Valid : (job_id : ℕ) (p : JobPriority) → Valid (promote host job_id p s).1
  unfolding promote
  promote-Valid job_id p =
      let v' = raise_priority-Valid s v _ p in
      rw update_jobs-bind
        (load-keeps Valid host job_id _ _ v' (λ job r f h. return-keeps Valid _ _ v')).left

  published-Valid :
      (q : Option PublishedProvider) → published_ok q ≡ true → Valid (record s { published = q })
  published-Valid q allowed = record {
    checked = v.checked;
    job_ids = v.job_ids;
    one_pending = v.one_pending;
    one_executing = v.one_executing;
    job_project = v.job_project;
    successor = v.successor;
    project_ids = v.project_ids;
    project_keys = v.project_keys;
    project_times = v.project_times;
    published_checked = allowed;
  }

  -- `publish_provider` writes another table.
  pub publish_provider-Valid :
      (clock : Reading) (provider version summary : Text)
      → Valid (publish_provider clock provider version summary s).1
  unfolding publish_provider
  publish_provider-Valid clock provider version summary =
      elim (Bool-cases (text_eq provider provider_rust)) [
        | inl t ↦
            rw t
              (lift-keeps Valid _ _ s v
                (λ now _. record { left = published-Valid _ (provider_ok-guard provider t) })).left
        | inr t ↦ rw t (throw-keeps Valid _ s v).left
      ]
