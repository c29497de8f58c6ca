-- ===== src/Store/Load.antt =====
-- remy-cc/src/state.rs: `load_job`, `get` and `parse_json`.
pub mod Laws
use remy_cc.Prelude.{ℕ, Option, none, some, Text}
use remy_cc.Host.{Host}
use remy_cc.Job.{
  Result, ok, err, not_found, corrupt, Reason, invalid_result_json, invalid_error_json, JobRow,
  ProjectRow, Job,
}
use remy_cc.Store.Monad.{
  M, ◌>>=◌, return, throw, lift, query_job, query_project, has_id, has_project_id,
}

module _ (host : Host) where
  open host use {Value, from_str}

  unfoldable pub parse_json : Option Text → Reason → Result (Option Value)
  parse_json none field = ok none
  parse_json (some raw) field = elim (from_str raw) [
    | none ↦ err (corrupt field)
    | some v ↦ ok (some v)
  ]

  -- The `SELECT` of the job joined to its project.
  abbrev joined : JobRow → ProjectRow → Option Value → Option Value → Job host
  joined r p result error = record {
    id = r.id;
    project_id = r.project_id;
    project_path = p.project_path;
    target_db_path = r.target_db_path;
    job_type = r.job_type;
    file_path = r.file_path;
    priority = r.priority;
    provider = r.provider;
    status = r.status;
    progress_current = r.progress_current;
    progress_total = r.progress_total;
    progress_message = r.progress_message;
    result = result;
    error = error;
    created_at = r.created_at;
    started_at = r.started_at;
    finished_at = r.finished_at;
    superseded_by_job_id = r.superseded_by_job_id;
  }

  with_project : ℕ → JobRow → Option ProjectRow → M (Job host)
  unfolding parse_json
  with_project id r none = throw (not_found id)
  with_project id r (some p) = do
    result ← lift (parse_json r.result_json invalid_result_json)
    error ← lift (parse_json r.error_json invalid_error_json)
    return (joined r p result error)

  with_row : ℕ → Option JobRow → M (Job host)
  unfolding with_project
  with_row id none = throw (not_found id)
  with_row id (some r) = do p ← query_project (has_project_id r.project_id); with_project id r p

  unfoldable pub load_job : ℕ → M (Job host)
  unfolding with_row
  load_job id = do r ← query_job (has_id id); with_row id r

  -- `StateStore::get`
  abbrev pub get : ℕ → M (Job host)
  get id = load_job id
