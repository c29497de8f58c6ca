-- ===== src/Store/Runs/Commands.antt =====
-- Submitting, promoting and reporting progress leave the executing jobs as they are.
use remy_cc.Prelude.{
  ℕ, Bool, true, false, refl, Option, none, some, [], ◌∷◌, ◌++◌, arith, Text, codes, update_if,
}
use remy_cc.Host.{Host, Reading}
use remy_cc.Job.{JobPriority, background, full_scan, JobRow, ProjectRow}
use remy_cc.Store.Monad.{Store, has_id, next_job_id}
use remy_cc.Store.Monad.Steps.{
  query_project-bind, query_job-bind, insert_job-bind, update_jobs-then, update_jobs-bind,
}
use remy_cc.Store.Transition.{set_superseded}
use remy_cc.Store.Submit.{
  SubmitJob, pending_row, raise_priority, full_scan_dedupe_key, enqueue, absorb_or_enqueue,
  submit_normalized, submit, start_full_scan, full_scan_of, submit_full_scan, promote,
  upsert_project,
}
use remy_cc.Store.Complete.{
  ProgressUpdate, progress_range, takes_progress, set_progress, after_progress, progress_in_range,
  update_progress,
}
use remy_cc.Store.Valid.Projects.{upsert_project-jobs}
use remy_cc.Store.Valid.FullScans.{is_absorbed}
use remy_cc.Store.Valid.Submits.{inserted}
use remy_cc.Store.Valid.Rules.{
  Leaves, bind-keeps, lift-keeps, transaction-keeps, load-keeps, only_load-keeps, return-keeps,
  throw-keeps,
}
use remy_cc.Store.Runs.{
  SameRuns, SameRuns-refl, SameRuns-trans, update-SameRuns, insert-SameRuns, jobs-SameRuns,
}

raise-SameRuns :
    (s : Store) (q : JobRow → Bool) (p : JobPriority)
    → SameRuns s (record s { jobs = update_if q (raise_priority p) s.jobs })
raise-SameRuns s q p = update-SameRuns s q (raise_priority p) (λ r. refl) (λ r h e. refl)

module _ (host : Host) (project_id : ℕ) (db file : Text) (p : JobPriority) (now : ℕ)
    (s : Store) where
  insert-keeps :
      (row : ℕ → JobRow) (created : Bool)
      → SameRuns s (record s { jobs = s.jobs ++ row (next_job_id s.jobs) ∷ [] })
      → SameRuns s (inserted host row created s).1
  insert-keeps row created v =
      rw insert_job-bind
        (load-keeps (SameRuns s) host _ _ _ v (λ job r f h. return-keeps (SameRuns s) _ _ v)).left

  enqueue-SameRuns :
      (existing : Option JobRow) → SameRuns s (enqueue host project_id db file p now existing s).1
  unfolding enqueue
  enqueue-SameRuns (some r) =
      let v' = raise-SameRuns s (has_id r.id) p in
      rw update_jobs-then
        (load-keeps (SameRuns s) host r.id _ _ v'
          (λ job r f h. return-keeps (SameRuns s) _ _ v')).left
  enqueue-SameRuns none = insert-keeps _ true (insert-SameRuns s _ (λ e. cc))

  absorb_or_enqueue-SameRuns :
      (full : Option JobRow) → SameRuns s (absorb_or_enqueue host project_id db file p now full s).1
  unfolding absorb_or_enqueue
  absorb_or_enqueue-SameRuns none = rw query_job-bind (enqueue-SameRuns _)
  absorb_or_enqueue-SameRuns (some full) = insert-keeps _ true (insert-SameRuns s _ (λ e. cc))

module _ (host : Host) (clock : Reading) (s : Store) where
  submit_normalized-SameRuns :
      (project db file : Text) (p : JobPriority) (now : ℕ)
      → Leaves (SameRuns s) (submit_normalized host project db file p now) s
  unfolding submit_normalized
  submit_normalized-SameRuns project db file p now =
      let upsert = upsert_project project project db now in
      let same = jobs-SameRuns s (upsert s).1 (upsert_project-jobs project project db now s) in
      transaction-keeps (SameRuns s) _ s (SameRuns-refl s) (
        bind-keeps (SameRuns s) upsert _ s same (λ i e. record {
          left = rw query_job-bind (
              SameRuns-trans same (absorb_or_enqueue-SameRuns host i db file p now (upsert s).1 _));
        }))

  pub submit-SameRuns : (request : SubmitJob) → SameRuns s (submit host clock request s).1
  unfolding submit
  submit-SameRuns request =
      let here = SameRuns-refl s in
      (lift-keeps (SameRuns s) _ _ s here (λ project _. lift-keeps (SameRuns s) _ _ s here (λ db _.
        lift-keeps (SameRuns s) _ _ s here (λ file _.
          lift-keeps (SameRuns s) _ _ s here
            (λ now _. submit_normalized-SameRuns project db file request.priority now))))).left

module _ (host : Host) (s : Store) where
  supersede_all-SameRuns :
      (project_id now : ℕ) (by : Option ℕ)
      → SameRuns s
          (record s { jobs = update_if (is_absorbed project_id) (set_superseded now by) s.jobs })
  supersede_all-SameRuns project_id now by =
      update-SameRuns s (is_absorbed project_id) (set_superseded now by) (λ r. refl)
        (λ r h e. absurd (ground arith))

module _ (host : Host) (s : Store) where
  start_full_scan-SameRuns :
      (project_id : ℕ) (db : Text) (now : ℕ) (existing : Option JobRow)
      → SameRuns s (start_full_scan host project_id db now existing s).1
  unfolding start_full_scan
  start_full_scan-SameRuns project_id db now (some r) =
      let here = SameRuns-refl s in
      (load-keeps (SameRuns s) host r.id _ s here
        (λ job r f h. return-keeps (SameRuns s) _ _ here)).left
  start_full_scan-SameRuns project_id db now none =
      let row =
        pending_row project_id full_scan db (codes ".") background now full_scan_dedupe_key
          (next_job_id s.jobs) in
      let v2 = SameRuns-trans (insert-SameRuns s row (λ e. cc)) (
        supersede_all-SameRuns host (record s { jobs = s.jobs ++ row ∷ [] }) project_id now
          (some (next_job_id s.jobs))) in
      rw insert_job-bind (
        rw update_jobs-then
          (load-keeps (SameRuns s) host _ _ _ v2
            (λ job r f h. return-keeps (SameRuns s) _ _ v2)).left)

  full_scan_of-SameRuns :
      (project_id now : ℕ) (q : Option ProjectRow)
      → SameRuns s (full_scan_of host project_id now q s).1
  unfolding full_scan_of
  full_scan_of-SameRuns project_id now none = (throw-keeps (SameRuns s) _ s (SameRuns-refl s)).left
  full_scan_of-SameRuns project_id now (some p) =
      rw query_job-bind (start_full_scan-SameRuns project_id p.db_path now _)

  pub submit_full_scan-SameRuns :
      (clock : Reading) (project_id : ℕ) → SameRuns s (submit_full_scan host clock project_id s).1
  unfolding submit_full_scan
  submit_full_scan-SameRuns clock project_id =
      let here = SameRuns-refl s in
      (lift-keeps (SameRuns s) _ _ s here (λ now _.
        transaction-keeps (SameRuns s) _ s here
          (record { left = rw query_project-bind (full_scan_of-SameRuns project_id now _) }))).left

  pub promote-SameRuns : (job_id : ℕ) (p : JobPriority) → SameRuns s (promote host job_id p s).1
  unfolding promote
  promote-SameRuns job_id p =
      let v' = raise-SameRuns s _ p in
      rw update_jobs-bind
        (load-keeps (SameRuns s) host job_id _ _ v'
          (λ job r f h. return-keeps (SameRuns s) _ _ v')).left

  after_progress-SameRuns :
      (t : Store)
      → SameRuns s t
      → (job_id : ℕ) (changed : Bool) → SameRuns s (after_progress host job_id changed t).1
  unfolding after_progress
  after_progress-SameRuns t v job_id true = (only_load-keeps (SameRuns s) host job_id t v).left
  after_progress-SameRuns t v job_id false =
      (load-keeps (SameRuns s) host job_id _ t v (λ job r f h. throw-keeps (SameRuns s) _ t v)).left

  progress_in_range-SameRuns :
      (job_id : ℕ) (message : Text) (range : Option (ℕ × ℕ))
      → SameRuns s (progress_in_range host job_id message range s).1
  unfolding progress_in_range
  progress_in_range-SameRuns job_id message none =
      (throw-keeps (SameRuns s) _ s (SameRuns-refl s)).left
  progress_in_range-SameRuns job_id message (some (current, total)) =
      let v' =
        update-SameRuns s (takes_progress job_id current) (set_progress current total message)
          (λ r. refl) (λ r h e. refl) in
      rw update_jobs-bind (after_progress-SameRuns _ v' job_id _)

  pub update_progress-SameRuns :
      (job_id : ℕ) (update : ProgressUpdate) → SameRuns s (update_progress host job_id update s).1
  unfolding update_progress
  update_progress-SameRuns job_id update =
      progress_in_range-SameRuns job_id update.message (progress_range update.current update.total)
