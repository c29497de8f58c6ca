-- ===== src/Store/Submit.antt =====
-- remy-cc/src/state.rs: `submit`, `submit_full_scan`, `promote` and the published provider.
pub mod Inserted
pub mod Queued
pub mod Absorbed
use remy_cc.Prelude.{
  ℕ, Bool, true, false, ◌&&◌, ◌||◌, Option, none, some, List, [], ◌∷◌, ◌++◌, map, Text, codes,
  text_eq, ltb, ◌==◌, if◌then◌else◌, update_if,
}
use remy_cc.Host.{Host, Reading}
use remy_cc.Paths.{normalize_existing_project, normalize_database_path, normalize_source_path}
use remy_cc.Job.{
  ok, JobPriority, background, priority_db, max_priority, JobStatus, pending, running,
  cancel_requested, superseded, status_eq, JobType, incremental_scan, full_scan, job_type_eq,
  sqlite, constraint_violation, no_rows, invalid_input, project_not_registered,
  unsupported_provider, JobRow, ProjectRow, PublishedProvider, Job,
}
use remy_cc.Store.Monad.{
  M, ◌>>=◌, ◌>>◌, return, throw, lift, transaction, query_job, query_project, update_jobs,
  insert_job, has_id, has_project_id, next_project_id, now_millis,
}
use remy_cc.Store.Load.{load_job}
use remy_cc.Store.Transition.{set_superseded}

pub record SubmitJob : Type 0 where
  pub project_path : Text
  pub db_path : Text
  pub file_path : Text
  pub priority : JobPriority

pub record SubmitResult (host : Host) : Type 0 where
  pub job : Job host
  pub created : Bool

pub record PromoteResult (host : Host) : Type 0 where
  pub job : Job host
  pub changed : Bool

-- FULL_SCAN_DEDUPE_KEY
abbrev pub full_scan_dedupe_key : Text
full_scan_dedupe_key = codes "full_scan"

abbrev pub has_key : Text → ProjectRow → Bool
has_key key p = text_eq p.project_key key

-- `INSERT INTO projects … ON CONFLICT(project_key) DO UPDATE`, under the table's check of
-- `last_seen_at >= created_at`: a new row satisfies it, an updated one need not.
unfoldable pub upsert_row : Text → Text → Text → ℕ → Option ProjectRow → M (Unit {0})
upsert_row key path db now none s = (
  ok tt,
  record s {
    projects =
        s.projects
        ++ record {
          id = next_project_id s.projects;
          project_key = key;
          project_path = path;
          db_path = db;
          created_at = now;
          last_seen_at = now;
        }
          ∷ [];
  },
)
upsert_row key path db now (some p) s =
    if ltb now p.created_at then throw (sqlite constraint_violation) s else (
      ok tt,
      record s {
        projects =
            update_if (has_key key)
              (λ q. record q { project_path = path; db_path = db; last_seen_at = now }) s.projects;
      },
    )

-- `query_row` of an id: no row is an error.
unfoldable pub row_id : Option ProjectRow → M ℕ
row_id none = throw (sqlite no_rows)
row_id (some p) = return p.id

unfoldable pub upsert_project : Text → Text → Text → ℕ → M ℕ
unfolding upsert_row row_id
upsert_project key path db now = do
  old ← query_project (has_key key)
  upsert_row key path db now old
  new ← query_project (has_key key)
  row_id new

abbrev pub is_type : ℕ → JobType → JobRow → Bool
is_type project_id t r = r.project_id == project_id && job_type_eq r.job_type t

abbrev pub is_status : JobStatus → JobRow → Bool
is_status st r = status_eq r.status st

abbrev pub is_executing : JobRow → Bool
is_executing r = status_eq r.status running || status_eq r.status cancel_requested

-- A row as an `INSERT` leaves it: the columns that it does not name are NULL or their default.
abbrev pub new_row :
    JobStatus
    → Option ℕ
    → ℕ
    → JobType
    → Text
    → Text
    → JobPriority
    → ℕ
    → Text
    → Option ℕ
    → ℕ
    → JobRow
new_row status finished project_id t db file p now key by id = record {
  id = id;
  project_id = project_id;
  job_type = t;
  target_db_path = db;
  file_path = file;
  priority = p;
  provider = codes "python";
  status = status;
  progress_current = none;
  progress_total = none;
  progress_message = none;
  result_json = none;
  error_json = none;
  created_at = now;
  started_at = none;
  finished_at = finished;
  dedupe_key = key;
  superseded_by_job_id = by;
}

abbrev pub pending_row : ℕ → JobType → Text → Text → JobPriority → ℕ → Text → ℕ → JobRow
pending_row project_id t db file p now key =
    new_row pending none project_id t db file p now key none

abbrev pub absorbed_row : ℕ → Text → Text → JobPriority → ℕ → Text → ℕ → ℕ → JobRow
absorbed_row project_id db file p now key by =
    new_row superseded (some now) project_id incremental_scan db file p now key (some by)

abbrev pub raise_priority : JobPriority → JobRow → JobRow
raise_priority p r = record r { priority = max_priority r.priority p }

-- `dedupe_key`
abbrev pub incremental_key : Text → Text
incremental_key file = codes "incremental_scan:" ++ file

abbrev pub is_pending_of : ℕ → JobType → Text → JobRow → Bool
is_pending_of project_id t key r =
    is_type project_id t r && text_eq r.dedupe_key key && is_status pending r

module _ (host : Host) where
  -- The pending job of the same file is reused, and otherwise a new one is inserted.
  unfoldable pub enqueue : ℕ → Text → Text → JobPriority → ℕ → Option JobRow → M (SubmitResult host)
  enqueue project_id db file p now (some existing) = do
    update_jobs (has_id existing.id) (raise_priority p)
    job ← load_job host existing.id
    return (record { job = job; created = false })
  enqueue project_id db file p now none = do
    id ← insert_job (pending_row project_id incremental_scan db file p now (incremental_key file))
    job ← load_job host id
    return (record { job = job; created = true })

  -- A pending full scan absorbs the submission.
  unfoldable pub absorb_or_enqueue :
      ℕ → Text → Text → JobPriority → ℕ → Option JobRow → M (SubmitResult host)
  unfolding enqueue
  absorb_or_enqueue project_id db file p now (some full) = do
    id ← insert_job (absorbed_row project_id db file p now (incremental_key file) full.id)
    job ← load_job host id
    return (record { job = job; created = true })
  absorb_or_enqueue project_id db file p now none = do
    existing ← query_job (is_pending_of project_id incremental_scan (incremental_key file))
    enqueue project_id db file p now existing

  -- The transaction of `submit`, on normalised paths.
  unfoldable pub submit_normalized : Text → Text → Text → JobPriority → ℕ → M (SubmitResult host)
  unfolding absorb_or_enqueue upsert_project
  submit_normalized project db file p now = transaction do
    project_id ← upsert_project project project db now
    full ← query_job (λ r. is_type project_id full_scan r && is_status pending r)
    absorb_or_enqueue project_id db file p now full

  unfoldable pub submit : Reading → SubmitJob → M (SubmitResult host)
  unfolding submit_normalized
  submit clock request = do
    project ← lift (normalize_existing_project host request.project_path)
    db ← lift (normalize_database_path host request.db_path)
    file ← lift (normalize_source_path request.file_path)
    now ← lift (now_millis clock)
    submit_normalized project db file request.priority now

  unfoldable pub start_full_scan : ℕ → Text → ℕ → Option JobRow → M (SubmitResult host)
  start_full_scan project_id db now (some existing) = do
    job ← load_job host existing.id
    return (record { job = job; created = false })
  start_full_scan project_id db now none = do
    id ←
        insert_job
          (pending_row project_id full_scan db (codes ".") background now full_scan_dedupe_key)
    update_jobs (λ r. is_type project_id incremental_scan r && is_status pending r)
        (set_superseded now (some id))
    job ← load_job host id
    return (record { job = job; created = true })

  unfoldable pub full_scan_of : ℕ → ℕ → Option ProjectRow → M (SubmitResult host)
  unfolding start_full_scan
  full_scan_of project_id now none = throw (invalid_input (project_not_registered project_id))
  full_scan_of project_id now (some p) = do
    existing ←
        query_job (λ r. is_type project_id full_scan r && (is_status pending r || is_executing r))
    start_full_scan project_id p.db_path now existing

  unfoldable pub submit_full_scan : Reading → ℕ → M (SubmitResult host)
  unfolding full_scan_of
  submit_full_scan clock project_id = do
    now ← lift (now_millis clock)
    transaction do p ← query_project (has_project_id project_id); full_scan_of project_id now p

  -- One statement outside a transaction, then `get`.
  unfoldable pub promote : ℕ → JobPriority → M (PromoteResult host)
  promote job_id p = do
    changed ←
        update_jobs
          (λ r.
            has_id job_id r && is_status pending r && ltb (priority_db r.priority) (priority_db p))
          (raise_priority p)
    job ← load_job host job_id
    return (record { job = job; changed = changed == 1 })

-- PROVIDER_RUST
abbrev pub provider_rust : Text
provider_rust = codes "rust"

-- `SELECT id FROM projects ORDER BY id`; ids grow along the table.
unfoldable pub project_ids : M (List ℕ)
project_ids s = (ok (map (λ (p : ProjectRow). p.id) s.projects), s)

unfoldable pub published_provider : M (Option PublishedProvider)
published_provider s = (ok s.published, s)

publish : PublishedProvider → M PublishedProvider
publish p s = (ok p, record s { published = some p })

unfoldable pub publish_provider : Reading → Text → Text → Text → M PublishedProvider
unfolding publish
publish_provider clock provider version summary =
    if text_eq provider provider_rust
    then (do
      now ← lift (now_millis clock)
      publish (record {
        provider = provider;
        daemon_version = version;
        verified_at = now;
        probe_summary = summary;
      }))
    else throw (invalid_input (unsupported_provider provider))
