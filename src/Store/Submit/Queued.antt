-- ===== src/Store/Submit/Queued.antt =====
-- What `submit` promises its caller (remy-cc/src/state.rs): the file will be scanned.
use remy_cc.Prelude.{
  ℕ, ◌≤◌, true, false, ◌&&◌, ◌≡◌, refl, sym, ◌∙◌, subst, Option, none, some, List, Text, ◌⊎◌, inl,
  inr, Memᴰ, arith, find_if, mem-find_if, find_if-update, find_if-some, update_if, mem-append_left,
  mem-append_last, mem-update_if, ==_refl, text_eq_iff,
}
use remy_cc.Host.{Host, Reading}
use remy_cc.Job.{
  ok, JobPriority, priority_db, max_priority, pending, status_eq→eq, incremental_scan, full_scan,
  job_type_eq→eq, JobRow, ProjectRow,
}
use remy_cc.Paths.{normalize_existing_project, normalize_database_path, normalize_source_path}
use remy_cc.Store.Monad.{Store, has_id, next_job_id}
use remy_cc.Store.Monad.Steps.{bind-ok, query_job-bind, update_jobs-then}
use remy_cc.Store.Monad.Atomic.{lift-ok, transaction-ok}
use remy_cc.Store.Load.Laws.{Shows}
use remy_cc.Store.Submit.{
  SubmitJob, SubmitResult, is_type, is_status, has_key, is_pending_of, pending_row, absorbed_row,
  raise_priority, incremental_key, enqueue, absorb_or_enqueue, upsert_project, submit_normalized,
  submit,
}
use remy_cc.Store.Valid.{Valid, IsPending}
use remy_cc.Store.Valid.Projects.{upsert_project-Valid, upsert_project-ok}
use remy_cc.Store.Runs.Changed.{same_row, found_row}
use remy_cc.Store.Submit.Inserted.{loaded_row, inserted-ok}

-- The project of the key has the id.
abbrev pub HasKey : Text → ℕ → Store → Type 0
HasKey project id t =
    (q : ProjectRow) × (find_if (has_key project) t.projects ≡ some q) × (q.id ≡ id)

-- The job of a submission waits, or a full scan of its project that waits has taken it over.
pub record Queued (host : Host) (before : List JobRow) (project db file : Text) (p : JobPriority)
    (o : SubmitResult host) (t : Store) : Type 0 where
  pub row : JobRow
  pub member : Memᴰ row t.jobs
  pub shows : Shows host row o.job
  pub type : row.job_type ≡ incremental_scan
  pub key : row.dedupe_key ≡ incremental_key file
  pub priority : priority_db p ≤ priority_db row.priority
  pub of_project : HasKey project row.project_id t
  -- a new job is of the file and the database; an old one was pending and keeps all but its priority
  pub origin :
      ((o.created ≡ true) × (row.file_path ≡ file) × (row.target_db_path ≡ db))
      ⊎ ((o.created ≡ false)
          × ((old : JobRow) × Memᴰ old before
              × IsPending old
              × (row ≡ record old { priority = row.priority })))
  pub waits :
      IsPending row
      ⊎ ((full : JobRow) × Memᴰ full t.jobs
          × IsPending full
          × (full.job_type ≡ full_scan)
          × (full.project_id ≡ row.project_id)
          × (row.superseded_by_job_id ≡ some full.id))

same_before :
    {host : Host} {jobs before : List JobRow} {project db file : Text} {p : JobPriority}
    {o : SubmitResult host} {t : Store}
    → jobs ≡ before
    → Queued host jobs project db file p o t
    → Queued host before project db file p o t
same_before {host} {project} {db} {file} {p} {o} {t} e q =
    subst (λ z. Queued host z project db file p o t) e q

max_priority-le : (q p : JobPriority) → priority_db p ≤ priority_db (max_priority q p)
max_priority-le q p = ground arith

module _ (host : Host) (project_id : ℕ) (project db file : Text) (p : JobPriority) (now : ℕ)
    (s : Store) (v : Valid s) (named : HasKey project project_id s) where
  is_pending_of-columns :
      (r : JobRow)
      → is_pending_of project_id incremental_scan (incremental_key file) r ≡ true
      → (r.project_id ≡ project_id)
        × (r.job_type ≡ incremental_scan)
        × (r.dedupe_key ≡ incremental_key file)
        × IsPending r
  is_pending_of-columns r h = (
    ground arith,
    ground (arith, job_type_eq→eq r.job_type incremental_scan),
    ground (arith, text_eq_iff r.dedupe_key (incremental_key file)),
    ground (arith, status_eq→eq r.status pending),
  )

  enqueue-Queued :
      (existing : Option JobRow)
      → find_if (is_pending_of project_id incremental_scan (incremental_key file)) s.jobs ≡ existing
      → {o : SubmitResult host} → (enqueue host project_id db file p now existing s).0 ≡ ok o
      → Queued host s.jobs project db file p o (enqueue host project_id db file p now existing s).1
  unfolding enqueue
  enqueue-Queued none e h =
      let row = pending_row project_id incremental_scan db file p now (incremental_key file) in
      let (shows, made, end) = inserted-ok host s row true (λ n. refl) h in
      rw end (record {
        row = row (next_job_id s.jobs);
        member = mem-append_last s.jobs;
        shows = shows;
        type = refl;
        key = refl;
        priority = omega arith;
        of_project = named;
        origin = inl (sym made, refl, refl);
        waits = inl refl;
      })
  enqueue-Queued (some r) e {o} h =
      let t = record s { jobs = update_if (has_id r.id) (raise_priority p) s.jobs } in
      let (m, mine) =
        mem-find_if (is_pending_of project_id incremental_scan (incremental_key file)) s.jobs e in
      let (of_id, type, key, waits) = is_pending_of-columns r mine in
      let (b, found) = find_if-some (has_id r.id) s.jobs m (==_refl r.id) in
      let (mb, ib) = found_row s r.id found in
      let same : b ≡ r = same_row s v b r mb m ib in
      let raised : find_if (has_id r.id) t.jobs ≡ some (raise_priority p r) =
        rw
          (
            find_if-update (has_id r.id) (has_id r.id) (raise_priority p) (λ x. refl) s.jobs,
            found,
            same,
          )
          (rw (==_refl r.id) refl) in
      let (shows, made, end) =
        loaded_row host t r.id (raise_priority p r) false raised (rw update_jobs-then at h) in
      rw (update_jobs-then, end)
        (record {
          row = raise_priority p r;
          member = rw (==_refl r.id) at (mem-update_if (has_id r.id) (raise_priority p) s.jobs m);
          shows = shows;
          type = type;
          key = key;
          priority = max_priority-le r.priority p;
          of_project = let (q, found_q, id) = named in (q, found_q, id ∙ sym of_id);
          origin = inr (sym made, (r, m, waits, refl));
          waits = inl waits;
        })

  absorb_or_enqueue-Queued :
      (full : Option JobRow)
      → find_if (λ r. is_type project_id full_scan r && is_status pending r) s.jobs ≡ full
      → {o : SubmitResult host} → (absorb_or_enqueue host project_id db file p now full s).0 ≡ ok o
      → Queued host s.jobs project db file p o
          (absorb_or_enqueue host project_id db file p now full s).1
  unfolding absorb_or_enqueue
  absorb_or_enqueue-Queued none e h =
      rw query_job-bind (enqueue-Queued _ refl (rw query_job-bind at h))
  absorb_or_enqueue-Queued (some full) e h =
      let row = absorbed_row project_id db file p now (incremental_key file) full.id in
      let (m, mine) =
        mem-find_if (λ r. is_type project_id full_scan r && is_status pending r) s.jobs e in
      let (shows, made, end) = inserted-ok host s row true (λ n. refl) h in
      let project : full.project_id ≡ project_id = ground arith in
      rw end (record {
        row = row (next_job_id s.jobs);
        member = mem-append_last s.jobs;
        shows = shows;
        type = refl;
        key = refl;
        priority = omega arith;
        of_project = named;
        origin = inl (sym made, refl, refl);
        waits = inr (
          full,
          mem-append_left _ m,
          ground (arith, status_eq→eq full.status pending),
          ground (arith, job_type_eq→eq full.job_type full_scan),
          project,
          refl,
        );
      })

module _ (host : Host) (clock : Reading) (s : Store) (v : Valid s) where
  submit_normalized-Queued :
      (project db file : Text) (p : JobPriority) (now : ℕ) {o : SubmitResult host}
      → (submit_normalized host project db file p now s).0 ≡ ok o
      → Queued host s.jobs project db file p o (submit_normalized host project db file p now s).1
  unfolding submit_normalized
  submit_normalized-Queued project db file p now h =
      let (h1, same1) = transaction-ok _ s h in
      let w = bind-ok (upsert_project project project db now) _ s h1 in
      let t = (upsert_project project project db now s).1 in
      let (named, same_jobs) = upsert_project-ok project project db now s w.first in
      rw (same1 ∙ w.after) (
        rw query_job-bind (
          same_before same_jobs (
            absorb_or_enqueue-Queued host w.middle project db file p now t
              (upsert_project-Valid project project db now s v) named _ refl
              (rw query_job-bind at w.second))))

  -- On valid tables, a submission that succeeds is kept. The job that it returns is an incremental scan
  -- with the key of the normalised file and the project of the normalised path, of at least the priority
  -- that was asked for; a job that is created has the normalised file and database, and one that is not
  -- was pending before and is the same but for its priority. The job is pending, or it is superseded by
  -- a full scan of its project that is pending.
  pub submit-Queued :
      (request : SubmitJob) (o : SubmitResult host)
      → (submit host clock request s).0 ≡ ok o
      → (project db file : Text) × (normalize_existing_project host request.project_path
          ≡ ok project)
        × (normalize_database_path host request.db_path ≡ ok db)
        × (normalize_source_path request.file_path ≡ ok file)
        × Queued host s.jobs project db file request.priority o (submit host clock request s).1
  unfolding submit
  submit-Queued request o h =
      let (project, read_project, h1, same1) = lift-ok _ _ s h in
      let (db, read_db, h2, same2) = lift-ok _ _ s h1 in
      let (file, read, h3, same3) = lift-ok _ _ s h2 in
      let (now, _, h4, same4) = lift-ok _ _ s h3 in
      (
        project,
        db,
        file,
        read_project,
        read_db,
        read,
        rw (same1 ∙ same2 ∙ same3 ∙ same4)
            (submit_normalized-Queued project db file request.priority now h4),
      )
