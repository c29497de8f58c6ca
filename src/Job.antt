-- ===== src/Job.antt =====
-- remy-cc/src/state.rs: job priorities, states and types, the rows of the tables `jobs` and
-- `projects`, and the errors of the store.
pub mod Columns
use remy_cc.Prelude.{
  ◌≡◌, arith, ℕ, Bool, true, false, Option, Text, codes, text_eq, if◌then◌else◌, ltb, ◌==◌,
}
use remy_cc.Host.{Host}

pub data JobPriority : Type 0 where
  background interactive : JobPriority

pub data JobStatus : Type 0 where
  pending running cancel_requested succeeded failed cancelled superseded : JobStatus

-- The column `job_type`, whose CHECK admits the two texts of `job_type_text`.
pub data JobType : Type 0 where
  incremental_scan full_scan : JobType

-- One constructor for each format string of an `InvalidInput` or a `Corrupt` error.
pub data Reason : Type 0 where
  invalid_priority : ℕ → Reason
  invalid_job_status : Text → Reason
  unsupported_provider unsupported_job_type : Text → Reason
  project_not_registered : ℕ → Reason
  progress_out_of_order completion_status not_serializable : Reason
  result_payload_required error_payload_required : Reason
  changed_during_claim changed_during_completion : ℕ → Reason
  invalid_result_json invalid_error_json : Reason
  clock_before_epoch clock_exceeds_integer : Reason
  filter_not_absolute project_not_a_directory db_path_not_absolute db_path_without_parent : Reason
  file_path_not_relative file_path_not_normal unsupported_extension : Reason
  channel_closed : Reason

-- `rusqlite::Error`: the codes of an `SqliteFailure` that the source tells apart, any other one, the code
-- of a broken constraint, and `QueryReturnedNoRows`.
pub data SqliteError : Type 0 where
  database_corrupt not_a_database system_io_failure cannot_open : SqliteError
  constraint_violation other_code no_rows : SqliteError

pub data StateError : Type 0 where
  sqlite : SqliteError → StateError
  io : StateError
  invalid_input corrupt : Reason → StateError
  not_found : ℕ → StateError
  not_cancellable : JobStatus → StateError
  invalid_transition : JobStatus → JobStatus → StateError

pub data Result {ℓ} (A : Type ℓ) : Type ℓ where
  ok : A → Result A
  err : StateError → Result A

-- `JobPriority::as_db` and `from_db`
abbrev pub priority_db : JobPriority → ℕ
priority_db background = 0
priority_db interactive = 1

unfoldable pub priority_from_db : ℕ → Result JobPriority
priority_from_db n =
    if n == 0
    then ok background
    else if n == 1
    then ok interactive
    else err (corrupt (invalid_priority n))

-- `MAX(priority, ?1)`
abbrev pub max_priority : JobPriority → JobPriority → JobPriority
max_priority p q = if ltb (priority_db p) (priority_db q) then q else p

-- `JobStatus::as_db` and `from_db`
abbrev pub status_db : JobStatus → Text
status_db pending = codes "pending"
status_db running = codes "running"
status_db cancel_requested = codes "cancel_requested"
status_db succeeded = codes "succeeded"
status_db failed = codes "failed"
status_db cancelled = codes "cancelled"
status_db superseded = codes "superseded"

unfoldable pub status_from_db : Text → Result JobStatus
status_from_db value =
    if text_eq value (codes "pending")
    then ok pending
    else if text_eq value (codes "running")
    then ok running
    else if text_eq value (codes "cancel_requested")
    then ok cancel_requested
    else if text_eq value (codes "succeeded")
    then ok succeeded
    else if text_eq value (codes "failed")
    then ok failed
    else if text_eq value (codes "cancelled")
    then ok cancelled
    else if text_eq value (codes "superseded")
    then ok superseded
    else err (corrupt (invalid_job_status value))

abbrev pub status_eq : JobStatus → JobStatus → Bool
status_eq pending pending = true
status_eq running running = true
status_eq cancel_requested cancel_requested = true
status_eq succeeded succeeded = true
status_eq failed failed = true
status_eq cancelled cancelled = true
status_eq superseded superseded = true
status_eq _ _ = false

-- JOB_TYPE_INCREMENTAL and JOB_TYPE_FULL_SCAN
abbrev pub job_type_text : JobType → Text
job_type_text incremental_scan = codes "incremental_scan"
job_type_text full_scan = codes "full_scan"

abbrev pub job_type_eq : JobType → JobType → Bool
job_type_eq incremental_scan incremental_scan = true
job_type_eq full_scan full_scan = true
job_type_eq _ _ = false

-- A row of the table `jobs`.
pub record JobRow : Type 0 where
  pub id : ℕ
  pub project_id : ℕ
  pub job_type : JobType
  pub target_db_path : Text
  pub file_path : Text
  pub priority : JobPriority
  pub provider : Text
  pub status : JobStatus
  pub progress_current : Option ℕ
  pub progress_total : Option ℕ
  pub progress_message : Option Text
  pub result_json : Option Text
  pub error_json : Option Text
  pub created_at : ℕ
  pub started_at : Option ℕ
  pub finished_at : Option ℕ
  pub dedupe_key : Text
  pub superseded_by_job_id : Option ℕ

-- A row of the table `projects`.
pub record ProjectRow : Type 0 where
  pub id : ℕ
  pub project_key : Text
  pub project_path : Text
  pub db_path : Text
  pub created_at : ℕ
  pub last_seen_at : ℕ

-- The one row of the table `published_provider`.
pub record PublishedProvider : Type 0 where
  pub provider : Text
  pub daemon_version : Text
  pub verified_at : ℕ
  pub probe_summary : Text

-- A job as the store returns it.
pub record Job (host : Host) : Type 0 where
  pub id : ℕ
  pub project_id : ℕ
  pub project_path : Text
  pub target_db_path : Text
  pub job_type : JobType
  pub file_path : Text
  pub priority : JobPriority
  pub provider : Text
  pub status : JobStatus
  pub progress_current : Option ℕ
  pub progress_total : Option ℕ
  pub progress_message : Option Text
  pub result : Option host.Value
  pub error : Option host.Value
  pub created_at : ℕ
  pub started_at : Option ℕ
  pub finished_at : Option ℕ
  pub superseded_by_job_id : Option ℕ

pub status_eq→eq : (a b : JobStatus) → status_eq a b ≡ true → a ≡ b
status_eq→eq a b h = ground arith

pub status_eq_refl : (a : JobStatus) → status_eq a a ≡ true
status_eq_refl a = ground arith

pub job_type_eq_refl : (t : JobType) → job_type_eq t t ≡ true
job_type_eq_refl t = ground arith

pub job_type_eq→eq : (a b : JobType) → job_type_eq a b ≡ true → a ≡ b
job_type_eq→eq a b h = ground arith
