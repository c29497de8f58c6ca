-- ===== src/Store/Listing.antt =====
-- remy-cc/src/state.rs: `list` and `recent_failed`.
pub mod Same
pub mod Newest
use Prim.Native.Nat.{min, max}
use remy_cc.Prelude.{
  order_by, ℕ, Bool, true, false, ◌&&◌, Option, none, some, List, [], ◌∷◌, Text, codes, text_eq,
  ltb, take, if◌then◌else◌, find_if, select_if,
}
use remy_cc.Host.{Host}
use remy_cc.Paths.{normalize_project_filter, normalize_source_path}
use remy_cc.Job.{
  Result, ok, err, JobStatus, failed, status_eq, job_type_text, invalid_input, unsupported_job_type,
  JobRow, ProjectRow, Job,
}
use remy_cc.Store.Monad.{Store, M, ◌>>=◌, return, lift, has_project_id}
use remy_cc.Store.Load.{load_job}

pub record ListJobs : Type 0 where
  pub project_path : Option Text
  pub file_path : Option Text
  pub status : Option JobStatus
  pub job_type : Option Text
  pub limit : ℕ

-- `ORDER BY j.created_at DESC, j.id DESC`: does `a` come before `b`?
unfoldable pub newer : JobRow → JobRow → Bool
newer a b =
    if ltb b.created_at a.created_at
    then true
    else if ltb a.created_at b.created_at
    then false
    else ltb b.id a.id

-- `?n IS NULL OR column = ?n`
abbrev pub text_filter : Option Text → Text → Bool
text_filter none column = true
text_filter (some t) column = text_eq column t

abbrev pub status_filter : Option JobStatus → JobStatus → Bool
status_filter none column = true
status_filter (some st) column = status_eq column st

abbrev pub project_filter : Option Text → Option ProjectRow → Bool
project_filter key none = false
project_filter key (some p) = text_filter key p.project_key

-- The `WHERE` clause over the join with the job's project.
unfoldable pub is_listed :
    List ProjectRow → Option Text → Option Text → Option JobStatus → Option Text → JobRow → Bool
unfolding find_if
is_listed projects key file status job_type r =
    project_filter key (find_if (has_project_id r.project_id) projects)
    && text_filter file r.file_path
    && status_filter status r.status
    && text_filter job_type (job_type_text r.job_type)

-- `filter.limit.clamp(1, 200)`
abbrev pub clamp_limit : ℕ → ℕ
clamp_limit n = min (max n 1) 200

unfoldable pub listed_rows :
    Store → Option Text → Option Text → Option JobStatus → Option Text → ℕ → List JobRow
unfolding order_by newer is_listed
listed_rows s key file status job_type limit =
    take (clamp_limit limit)
      (order_by newer (select_if (is_listed s.projects key file status job_type) s.jobs))

unfoldable pub query_list :
    Option Text → Option Text → Option JobStatus → Option Text → ℕ → M (List JobRow)
query_list key file status job_type limit s = (ok (listed_rows s key file status job_type limit), s)

-- `map(…).transpose()?`
abbrev pub traverse : (Text → Result Text) → Option Text → Result (Option Text)
traverse f none = ok none
traverse f (some t) = elim (f t) [ ok u ↦ ok (some u) | err e ↦ err e ]

unfoldable pub check_job_type : Option Text → Result (Option Text)
check_job_type none = ok none
check_job_type (some t) =
    if text_eq t (codes "incremental_scan")
    then ok (some t)
    else if text_eq t (codes "full_scan")
    then ok (some t)
    else err (invalid_input (unsupported_job_type t))

-- The filter of `recent_failed`.
abbrev pub failures : ℕ → ListJobs
failures limit = record {
  project_path = none;
  file_path = none;
  status = some failed;
  job_type = none;
  limit = clamp_limit limit;
}

module _ (host : Host) where
  unfoldable pub load_all : List JobRow → M (List (Job host))
  load_all [] = return []
  load_all (r ∷ rs) = load_job host r.id >>= λ job. load_all rs >>= λ jobs. return (job ∷ jobs)

  unfoldable pub list : ListJobs → M (List (Job host))
  unfolding load_all query_list check_job_type
  list filter = do
    key ← lift (traverse (normalize_project_filter host) filter.project_path)
    file ← lift (traverse normalize_source_path filter.file_path)
    job_type ← lift (check_job_type filter.job_type)
    rows ← query_list key file filter.status job_type filter.limit
    load_all rows

  unfoldable pub recent_failed : ℕ → M (List (Job host))
  unfolding list
  recent_failed limit = list (failures limit)
