-- ===== src/Server.antt =====
-- remy-cc/src/server.rs: one connection of a client. Lines are read as requests; the server answers some
-- itself and passes the others to the scheduler.
pub mod Access
pub mod Answers
pub mod Dialogue
pub mod Outcomes
pub mod Connection
use Prim.Native.Nat.{min, max}
use remy_cc.Prelude.{
  ℕ, Bool, true, false, not, Option, none, some, List, [], ◌∷◌, ◌++◌, Text, codes, text_eq, ◌==◌,
  if◌then◌else◌,
}
use remy_cc.Host.{Host}
use remy_cc.Job.{
  Result, ok, err, StateError, sqlite, SqliteError, database_corrupt, not_a_database,
  system_io_failure, cannot_open, constraint_violation, other_code, no_rows, io, invalid_input,
  corrupt, channel_closed, not_found, not_cancellable, invalid_transition, JobStatus, Job,
}
use remy_cc.Store.Transition.{CancelResult}
use remy_cc.Store.Submit.{SubmitJob, SubmitResult, PromoteResult}
use remy_cc.Store.Listing.{ListJobs, clamp_limit}
use remy_cc.Scheduler.{
  Command, submit_job, promote_job, get_job, cancel_job, list_jobs, status, Reply, submitted,
  promoted, got, cancelled_job, listed, snapshot, no_reply,
}
use remy_cc.Protocol.{
  current_protocol, current_schema, Request, hello_request, ping, shutdown_request, submit_request,
  promote_request, get_request, cancel_request, list_request, status_request, open_config_ui,
  token_of, business_versions, JobFilters, ScannerStatus, UiStatus, Message, not_protocol_json,
  token_mismatch, bad_ui_mode, client_protocol, client_schema, of_state, ui_conflict, ui_diagnostic,
  Response, greeting, ack, submitted_job, promoted_job, job_found, cancelled_to, job_list,
  status_of, config_ui, error,
}

-- The codes of an `SqliteFailure` that `StateError::is_fatal` names.
abbrev pub is_fatal_code : SqliteError → Bool
is_fatal_code database_corrupt = true
is_fatal_code not_a_database = true
is_fatal_code system_io_failure = true
is_fatal_code cannot_open = true
is_fatal_code constraint_violation = false
is_fatal_code other_code = false
is_fatal_code no_rows = false

-- `StateError::is_fatal`
abbrev pub is_fatal : StateError → Bool
is_fatal (corrupt _) = true
is_fatal io = true
is_fatal (sqlite e) = is_fatal_code e
is_fatal (invalid_input _) = false
is_fatal (not_found _) = false
is_fatal (not_cancellable _) = false
is_fatal (invalid_transition _ _) = false

-- The codes of `state_error_response`.
unfoldable pub error_code : StateError → Text
error_code (invalid_input _) = codes "invalid_request"
error_code (not_found _) = codes "not_found"
error_code (not_cancellable _) = codes "not_cancellable"
error_code (invalid_transition _ _) = codes "invalid_transition"
error_code (sqlite _) = codes "storage_error"
error_code io = codes "storage_error"
error_code (corrupt _) = codes "storage_error"

-- `ui_host::OpenOutcome`
pub data OpenOutcome : Type 0 where
  ready : Text → Text → OpenOutcome
  conflict : Text → Option Text → ℕ → ℕ → OpenOutcome
  spawn_failed : Text → OpenOutcome

-- What a connection is given: the session's token, the daemon's version, the state of the scanner, and
-- the host of the configuration pages, as far as it is asked.
pub record Session : Type 0 where
  pub token : Text
  pub daemon_version : Text
  pub scanner : ScannerStatus
  pub ui_status : Option UiStatus
  pub ui_open : Text → Option Text → OpenOutcome

module _ (host : Host) where
  -- What the handling of a line does, one call after the other: `write_response`, and a command to the
  -- scheduler with what its reply leads to; it ends in going on with the next line, in the end of the
  -- connection or of the daemon, or in an error that ends `serve`.
  pub data Handling : Type 0 where
    write : Response host → Handling → Handling
    ask : Command host → (Reply host → Handling) → Handling
    proceed close stop : Handling
    fail : StateError → Handling

  abbrev pub continue_with : Response host → Handling
  continue_with r = write r proceed

  unfoldable pub refuse : Text → Message → Handling
  refuse code message = continue_with (error code message)

  -- The two `Err` arms of every call of the scheduler.
  unfoldable pub state_error : StateError → Handling
  unfolding error_code
  state_error e = if is_fatal e then fail e else continue_with (error (error_code e) (of_state e))

  unfoldable pub respond : {A : Type 0} → (A → Response host) → Result A → Handling
  unfolding state_error
  respond f (ok a) = continue_with (f a)
  respond f (err e) = state_error e

  -- A reply that does not come is the error of `SchedulerHandle::request`.
  abbrev pub unanswered : Handling
  unanswered = fail (corrupt channel_closed)

  unfoldable pub on_submitted : Reply host → Handling
  unfolding respond
  on_submitted (submitted r) = respond (λ (x : SubmitResult host). submitted_job x.job x.created) r
  on_submitted _ = unanswered

  unfoldable pub on_promoted : Reply host → Handling
  unfolding respond
  on_promoted (promoted r) = respond (λ (x : PromoteResult host). promoted_job x.job x.changed) r
  on_promoted _ = unanswered

  unfoldable pub on_got : Reply host → Handling
  unfolding respond
  on_got (got r) = respond job_found r
  on_got _ = unanswered

  unfoldable pub on_cancelled : Reply host → Handling
  unfolding respond
  on_cancelled (cancelled_job r) =
      respond (λ (x : CancelResult host). cancelled_to x.job x.changed) r
  on_cancelled _ = unanswered

  unfoldable pub on_listed : ℕ → JobFilters → Reply host → Handling
  unfolding respond
  on_listed limit filters (listed r) = respond (λ jobs. job_list jobs limit filters) r
  on_listed limit filters _ = unanswered

  unfoldable pub on_status : Session → Reply host → Handling
  unfolding respond
  on_status session (snapshot r) =
      respond
        (λ (x : List (Job host) × List (Job host)).
          status_of x.0 x.1 session.scanner session.ui_status)
        r
  on_status session _ = unanswered

  -- `combination_valid`
  unfoldable pub valid_ui_mode : Text → Option Text → Bool
  valid_ui_mode mode target =
      if text_eq mode (codes "global")
      then (elim target [ none ↦ true | some _ ↦ false ])
      else if text_eq mode (codes "project")
      then (elim target [ none ↦ false | some _ ↦ true ])
      else false

  unfoldable pub opened : OpenOutcome → Handling
  unfolding refuse
  opened (ready url token) = continue_with (config_ui url token)
  opened (conflict mode target pid port) =
      refuse (codes "ui_conflict") (ui_conflict mode target pid port)
  opened (spawn_failed diagnostic) = refuse (codes "ui_spawn_failed") (ui_diagnostic diagnostic)

  -- `limit.unwrap_or(50).clamp(1, 200)`
  abbrev pub applied_limit : Option ℕ → ℕ
  applied_limit none = clamp_limit 50
  applied_limit (some n) = clamp_limit n

  -- The `match request` behind the checks.
  unfoldable pub serve_request : Session → Request → Handling
  unfolding on_submitted on_promoted on_got on_cancelled on_listed on_status valid_ui_mode opened
      refuse
  serve_request session (hello_request _ _) = (continue_with (greeting host session.daemon_version))
  serve_request session (ping _) = (continue_with ack)
  serve_request session (shutdown_request _) = write ack stop
  serve_request session (submit_request _ project db file priority) =
      ask
        (submit_job
          (record { project_path = project; db_path = db; file_path = file; priority = priority }))
        on_submitted
  serve_request session (promote_request _ job_id priority) =
      ask (promote_job job_id priority) on_promoted
  serve_request session (get_request _ job_id) = ask (get_job job_id) on_got
  serve_request session (cancel_request _ job_id) = ask (cancel_job job_id) on_cancelled
  serve_request session (list_request _ project file st job_type limit) =
      ask
        (list_jobs (record {
          project_path = project;
          file_path = file;
          status = st;
          job_type = job_type;
          limit = applied_limit limit;
        }))
        (on_listed (applied_limit limit)
          (record { project_path = project; file_path = file; status = st; job_type = job_type }))
  serve_request session (status_request _) = ask status (on_status session)
  serve_request session (open_config_ui _ mode target) =
      (if valid_ui_mode mode target
        then opened (session.ui_open mode target)
        else refuse (codes "invalid_request") bad_ui_mode)

  -- The two tests of the versions.
  unfoldable pub check_versions : Session → Request → Option (ℕ × ℕ) → Handling
  unfolding serve_request refuse
  check_versions session request none = serve_request session request
  check_versions session request (some (protocol, schema)) =
      if not (protocol == current_protocol)
      then (refuse (codes "incompatible_protocol") (client_protocol protocol))
      else if not (schema == current_schema)
      then (refuse (codes "incompatible_state_schema") (client_schema schema))
      else serve_request session request

  -- One line; `none` is a line that is no request.
  unfoldable pub serve_line : Session → Option Request → Handling
  unfolding check_versions refuse
  serve_line session none = (refuse (codes "invalid_request") not_protocol_json)
  serve_line session (some request) =
      if text_eq (token_of request) session.token
      then check_versions session request (business_versions request)
      else write (error (codes "bad_token") token_mismatch) close
