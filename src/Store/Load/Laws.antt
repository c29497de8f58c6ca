-- ===== src/Store/Load/Laws.antt =====
-- What `load_job` returns: the row of the id, joined to its project, with its payloads parsed.
use remy_cc.Prelude.{ℕ, Option, none, some, ◌≡◌, refl, find_if, arith}
use remy_cc.Host.{Host}
use remy_cc.Job.{ok, invalid_result_json, invalid_error_json, JobRow, ProjectRow, Job}
use remy_cc.Store.Monad.{programs, Store, M, ◌>>=◌, has_id, has_project_id}
use remy_cc.Store.Monad.Steps.{bind-ok}
use remy_cc.Store.Load.{joined, parse_json, with_project, with_row, load_job}

-- The job shows the columns of the row.
pub record Shows (host : Host) (r : JobRow) (job : Job host) : Type 0 where
  pub id : job.id ≡ r.id
  pub project_id : job.project_id ≡ r.project_id
  pub target_db_path : job.target_db_path ≡ r.target_db_path
  pub job_type : job.job_type ≡ r.job_type
  pub file_path : job.file_path ≡ r.file_path
  pub priority : job.priority ≡ r.priority
  pub provider : job.provider ≡ r.provider
  pub status : job.status ≡ r.status
  pub progress_current : job.progress_current ≡ r.progress_current
  pub progress_total : job.progress_total ≡ r.progress_total
  pub progress_message : job.progress_message ≡ r.progress_message
  pub result : parse_json host r.result_json invalid_result_json ≡ ok job.result
  pub error : parse_json host r.error_json invalid_error_json ≡ ok job.error
  pub created_at : job.created_at ≡ r.created_at
  pub started_at : job.started_at ≡ r.started_at
  pub finished_at : job.finished_at ≡ r.finished_at
  pub superseded_by_job_id : job.superseded_by_job_id ≡ r.superseded_by_job_id

-- The payloads of a row are JSON.
pub record Readable (host : Host) (r : JobRow) : Type 0 where
  pub result : (v : Option host.Value) × (parse_json host r.result_json invalid_result_json ≡ ok v)
  pub error : (v : Option host.Value) × (parse_json host r.error_json invalid_error_json ≡ ok v)

module _ (host : Host) where
  with_project-same :
      (id : ℕ) (r : JobRow) (p : Option ProjectRow) (s : Store) → (with_project host id r p s).1 ≡ s
  unfolding programs with_project
  with_project-same id r none s = refl
  with_project-same id r (some p) s = ground arith

  with_row-same : (id : ℕ) (r : Option JobRow) (s : Store) → (with_row host id r s).1 ≡ s
  unfolding programs with_row
  with_row-same id none s = refl
  with_row-same id (some r) s = with_project-same id r _ s

  -- A load changes nothing.
  pub load_job-same : (id : ℕ) (s : Store) → (load_job host id s).1 ≡ s
  unfolding programs load_job
  load_job-same id s = with_row-same id _ s

  with_project-Shows :
      (id : ℕ) (r : JobRow) (p : Option ProjectRow) (s : Store) {job : Job host}
      → (with_project host id r p s).0 ≡ ok job
      → Shows host r job
  unfolding programs with_project
  with_project-Shows id r none s h = cc
  with_project-Shows id r (some p) s h = ground arith

  with_row-Shows :
      (id : ℕ) (r : Option JobRow) (s : Store) {job : Job host}
      → (with_row host id r s).0 ≡ ok job
      → (r' : JobRow) × (r ≡ some r') × Shows host r' job
  unfolding programs with_row
  with_row-Shows id none s h = cc
  with_row-Shows id (some r) s h = (r, refl, with_project-Shows id r _ s h)

  -- A successful load shows the row of the id.
  pub load_job-Shows :
      (id : ℕ) (s : Store) {job : Job host}
      → (load_job host id s).0 ≡ ok job
      → (r : JobRow) × (find_if (has_id id) s.jobs ≡ some r) × Shows host r job
  unfolding programs load_job
  load_job-Shows id s h = with_row-Shows id _ s h

  -- A row of a known project with readable payloads is loaded.
  pub load_job-ok :
      (id : ℕ) (s : Store) (r : JobRow) (p : ProjectRow)
      → find_if (has_id id) s.jobs ≡ some r
      → find_if (has_project_id r.project_id) s.projects ≡ some p
      → Readable host r
      → (job : Job host) × ((load_job host id s).0 ≡ ok job)
  unfolding programs load_job with_row with_project
  load_job-ok id s r p hr hp readable = (
    joined host r p readable.result.0 readable.error.0,
    rw (hr, with_row) (rw (hp, with_project) (rw (readable.result.1, readable.error.1))),
  )

-- A program behind a load that succeeds went on with the job of the row.
pub record Loaded {B : Type 0} (host : Host) (id : ℕ) (f : Job host → M B) (s : Store) (b : B)
    : Type 0 where
  pub job : Job host
  pub row : JobRow
  pub found : find_if (has_id id) s.jobs ≡ some row
  pub shows : Shows host row job
  pub second : (f job s).0 ≡ ok b
  pub after : ((load_job host id >>= f) s).1 ≡ (f job s).1

pub load_job-bind_ok :
    {B : Type 0} (host : Host) (id : ℕ) (f : Job host → M B) (s : Store) {b : B}
    → ((load_job host id >>= f) s).0 ≡ ok b
    → Loaded host id f s b
load_job-bind_ok host id f s h =
    let w = bind-ok (load_job host id) f s h in
    let (r, found, shows) = load_job-Shows host id s w.first in
    let same = load_job-same host id s in
    record {
      job = w.middle;
      row = r;
      found = found;
      shows = shows;
      second = rw same at w.second;
      after = rw same at w.after;
    }
