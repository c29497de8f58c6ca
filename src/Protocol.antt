-- ===== src/Protocol.antt =====
-- remy-cc/src/protocol.rs: the requests of the clients and the daemon's responses, as the values that
-- serde reads and writes.
use remy_cc.Prelude.{ℕ, Bool, Option, none, some, List, Text}
use remy_cc.Host.{Host}
use remy_cc.Job.{StateError, JobPriority, JobStatus, PublishedProvider, Job}

-- PROTOCOL_VERSION, and STATE_SCHEMA_VERSION of remy-cc/src/state.rs
abbrev pub current_protocol : ℕ
current_protocol = 6

abbrev pub current_schema : ℕ
current_schema = 2

-- The two versions and the token that every request for a job carries.
pub record Envelope : Type 0 where
  pub protocol_version : ℕ
  pub state_schema_version : ℕ
  pub token : Text

pub data Request : Type 0 where
  hello_request : ℕ → Text → Request
  ping : Text → Request
  shutdown_request : Text → Request
  submit_request : Envelope → Text → Text → Text → JobPriority → Request
  promote_request : Envelope → ℕ → JobPriority → Request
  get_request : Envelope → ℕ → Request
  cancel_request : Envelope → ℕ → Request
  list_request :
      Envelope → Option Text → Option Text → Option JobStatus → Option Text → Option ℕ → Request
  status_request : Envelope → Request
  open_config_ui : Envelope → Text → Option Text → Request

-- `Request::token`
unfoldable pub token_of : Request → Text
token_of (hello_request _ token) = token
token_of (ping token) = token
token_of (shutdown_request token) = token
token_of (submit_request e _ _ _ _) = e.token
token_of (promote_request e _ _) = e.token
token_of (get_request e _) = e.token
token_of (cancel_request e _) = e.token
token_of (list_request e _ _ _ _ _) = e.token
token_of (status_request e) = e.token
token_of (open_config_ui e _ _) = e.token

abbrev versions : Envelope → Option (ℕ × ℕ)
versions e = some (e.protocol_version, e.state_schema_version)

-- `Request::business_versions`
unfoldable pub business_versions : Request → Option (ℕ × ℕ)
business_versions (hello_request _ _) = none
business_versions (ping _) = none
business_versions (shutdown_request _) = none
business_versions (submit_request e _ _ _ _) = versions e
business_versions (promote_request e _ _) = versions e
business_versions (get_request e _) = versions e
business_versions (cancel_request e _) = versions e
business_versions (list_request e _ _ _ _ _) = versions e
business_versions (status_request e) = versions e
business_versions (open_config_ui e _ _) = versions e

pub record JobFilters : Type 0 where
  pub project_path : Option Text
  pub file_path : Option Text
  pub status : Option JobStatus
  pub job_type : Option Text

pub record ScannerStatus : Type 0 where
  pub desired : Text
  pub published : Option PublishedProvider
  pub diagnostic : Option Text

pub record UiStatus : Type 0 where
  pub pid : ℕ
  pub port : ℕ
  pub mode : Text
  pub target : Option Text

-- The text of an error response, by what its format string is filled with.
pub data Message : Type 0 where
  not_protocol_json token_mismatch bad_ui_mode : Message
  client_protocol client_schema : ℕ → Message
  of_state : StateError → Message
  ui_conflict : Text → Option Text → ℕ → ℕ → Message
  ui_diagnostic : Text → Message

module _ (host : Host) where
  pub data Response : Type 0 where
    hello : ℕ → ℕ → Text → Response
    ack : Response
    submitted_job : Job host → Bool → Response
    promoted_job : Job host → Bool → Response
    job_found : Job host → Response
    cancelled_to : Job host → Bool → Response
    job_list : List (Job host) → ℕ → JobFilters → Response
    status_of : List (Job host) → List (Job host) → ScannerStatus → Option UiStatus → Response
    config_ui : Text → Text → Response
    error : Text → Message → Response

-- `Response::hello`
abbrev pub greeting : (host : Host) → Text → Response host
greeting host daemon_version = hello current_protocol current_schema daemon_version
