-- ===== src/Server/Answers.antt =====
-- How the server answers by a reply (remy-cc/src/server.rs, the arms of `handle_connection`).
use remy_cc.Prelude.{
  Text, ℕ, true, false, ◌≡◌, refl, ◌⊎◌, inl, inr, Option, none, some, List, Bool-cases,
}
use remy_cc.Host.{Host}
use remy_cc.Job.{
  Result, ok, err, StateError, sqlite, database_corrupt, not_a_database, system_io_failure,
  cannot_open, constraint_violation, other_code, no_rows, io, invalid_input, corrupt,
  channel_closed, not_found, not_cancellable, invalid_transition, JobPriority, JobStatus, Job,
}
use remy_cc.Store.Submit.{SubmitResult, PromoteResult}
use remy_cc.Store.Transition.{CancelResult}
use remy_cc.Store.Listing.{ListJobs}
use remy_cc.Scheduler.{
  Command, submit_job, promote_job, get_job, cancel_job, list_jobs, status, Reply, submitted,
  promoted, got, cancelled_job, listed, snapshot, no_reply,
}
use remy_cc.Protocol.{
  Envelope, Request, submit_request, promote_request, get_request, cancel_request, list_request,
  status_request, Response, error, of_state, submitted_job, promoted_job, job_found, cancelled_to,
  job_list, status_of,
}
use remy_cc.Server.{
  applied_limit, Session, Handling, write, proceed, fail, is_fatal, error_code, state_error,
  respond, unanswered, on_submitted, on_promoted, on_got, on_cancelled, on_listed, on_status,
}

-- The errors that end the daemon: a corrupt database, one that is no database or cannot be opened, and
-- failures of input and output.
abbrev pub IsFatal : StateError → Type 0
IsFatal (corrupt _) = Unit {0}
IsFatal io = Unit {0}
IsFatal (sqlite database_corrupt) = Unit {0}
IsFatal (sqlite not_a_database) = Unit {0}
IsFatal (sqlite system_io_failure) = Unit {0}
IsFatal (sqlite cannot_open) = Unit {0}
IsFatal _ = false ≡ true

is_fatal-IsFatal : (e : StateError) → is_fatal e ≡ true → IsFatal e
is_fatal-IsFatal (corrupt _) h = tt
is_fatal-IsFatal io h = tt
is_fatal-IsFatal (sqlite database_corrupt) h = tt
is_fatal-IsFatal (sqlite not_a_database) h = tt
is_fatal-IsFatal (sqlite system_io_failure) h = tt
is_fatal-IsFatal (sqlite cannot_open) h = tt
is_fatal-IsFatal (sqlite constraint_violation) h = h
is_fatal-IsFatal (sqlite other_code) h = h
is_fatal-IsFatal (sqlite no_rows) h = h
is_fatal-IsFatal (invalid_input _) h = h
is_fatal-IsFatal (not_found _) h = h
is_fatal-IsFatal (not_cancellable _) h = h
is_fatal-IsFatal (invalid_transition _ _) h = h

IsFatal-is_fatal : (e : StateError) → is_fatal e ≡ false → ¬ IsFatal e
IsFatal-is_fatal (corrupt _) h f = cc h
IsFatal-is_fatal io h f = cc h
IsFatal-is_fatal (sqlite database_corrupt) h f = cc h
IsFatal-is_fatal (sqlite not_a_database) h f = cc h
IsFatal-is_fatal (sqlite system_io_failure) h f = cc h
IsFatal-is_fatal (sqlite cannot_open) h f = cc h
IsFatal-is_fatal (sqlite constraint_violation) h f = cc f
IsFatal-is_fatal (sqlite other_code) h f = cc f
IsFatal-is_fatal (sqlite no_rows) h f = cc f
IsFatal-is_fatal (invalid_input _) h f = cc f
IsFatal-is_fatal (not_found _) h f = cc f
IsFatal-is_fatal (not_cancellable _) h f = cc f
IsFatal-is_fatal (invalid_transition _ _) h f = cc f

abbrev pub error_of : {A : Type 0} → Result A → Option StateError
error_of (ok a) = none
error_of (err e) = some e

module _ (host : Host) where
  -- The error that a reply is to a command, if it is one; a reply that is not the command's, or none,
  -- is a closed channel.
  abbrev pub failure_of : Command host → Reply host → Option StateError
  failure_of (submit_job _) (submitted r) = error_of r
  failure_of (promote_job _ _) (promoted r) = error_of r
  failure_of (get_job _) (got r) = error_of r
  failure_of (cancel_job _) (cancelled_job r) = error_of r
  failure_of (list_jobs _) (listed r) = error_of r
  failure_of status (snapshot r) = error_of r
  failure_of _ _ = some (corrupt channel_closed)

  -- The filter of a list request.
  abbrev pub list_filter :
      Envelope → Option Text → Option Text → Option JobStatus → Option Text → Option ℕ → ListJobs
  list_filter e project file st job_type limit = record {
    project_path = project;
    file_path = file;
    status = st;
    job_type = job_type;
    limit = applied_limit host limit;
  }

  -- What is done for an error: it is the response, and on with the next line; a fatal error is not
  -- answered and ends `serve`.
  abbrev pub Errs : Handling host → StateError → Type 0
  Errs h e =
      (IsFatal e × (h ≡ fail e))
      ⊎ ((¬ IsFatal e) × (h ≡ write (error (error_code e) (of_state e)) proceed))

  state_error-Errs : (e : StateError) → Errs (state_error host e) e
  unfolding state_error
  state_error-Errs e = elim (Bool-cases (is_fatal e)) [
    | inl t ↦ inl (is_fatal-IsFatal e t, rw (t, state_error) refl)
    | inr t ↦ inr (IsFatal-is_fatal e t, rw (t, state_error) refl)
  ]

  unanswered-Errs : Errs (unanswered host) (corrupt channel_closed)
  unanswered-Errs = inl (tt, refl)

  module _ (session : Session) where
    -- The response to a request by a reply that is no error: what the reply holds.
    pub data Reports : Request → Reply host → Response host → Type 0 where
      submission :
          (e : Envelope) (project db file : Text) (p : JobPriority) (x : SubmitResult host)
          → Reports
              (submit_request e project db file p)
              (submitted (ok x))
              (submitted_job x.job x.created)
      promotion :
          (e : Envelope) (id : ℕ) (p : JobPriority) (x : PromoteResult host)
          → Reports (promote_request e id p) (promoted (ok x)) (promoted_job x.job x.changed)
      one_job :
          (e : Envelope) (id : ℕ) (x : Job host)
          → Reports (get_request e id) (got (ok x)) (job_found x)
      cancellation :
          (e : Envelope) (id : ℕ) (x : CancelResult host)
          → Reports (cancel_request e id) (cancelled_job (ok x)) (cancelled_to x.job x.changed)
      listing :
          (e : Envelope) (project file : Option Text) (st : Option JobStatus)
          (job_type : Option Text) (limit : Option ℕ) (x : List (Job host))
          → Reports (list_request e project file st job_type limit) (listed (ok x)) (
              job_list x (applied_limit host limit) (record {
                project_path = project;
                file_path = file;
                status = st;
                job_type = job_type;
              }))
      state_of :
          (e : Envelope) (x : List (Job host) × List (Job host))
          → Reports
              (status_request e)
              (snapshot (ok x))
              (status_of x.0 x.1 session.scanner session.ui_status)

    -- What is done for a reply: one response and on with the next line.
    abbrev pub Fits : Request → Reply host → Handling host → Option StateError → Type 0
    Fits q reply h none = (r : Response host) × Reports q reply r × (h ≡ write r proceed)
    Fits q reply h (some e) = Errs h e

    pub on_submitted-Fits :
        (e : Envelope) (project db file : Text) (p : JobPriority) (reply : Reply host)
        → Fits (submit_request e project db file p) reply (on_submitted host reply) (
            failure_of
              (submit_job
                (record { project_path = project; db_path = db; file_path = file; priority = p }))
              reply)
    unfolding on_submitted respond
    on_submitted-Fits e project db file p (submitted (ok x)) =
        (_, submission e project db file p x, refl)
    on_submitted-Fits e project db file p (submitted (err because)) = state_error-Errs because
    on_submitted-Fits e project db file p (promoted r) = unanswered-Errs
    on_submitted-Fits e project db file p (got r) = unanswered-Errs
    on_submitted-Fits e project db file p (cancelled_job r) = unanswered-Errs
    on_submitted-Fits e project db file p (listed r) = unanswered-Errs
    on_submitted-Fits e project db file p (snapshot r) = unanswered-Errs
    on_submitted-Fits e project db file p no_reply = unanswered-Errs

    pub on_promoted-Fits :
        (e : Envelope) (id : ℕ) (p : JobPriority) (reply : Reply host)
        → Fits
            (promote_request e id p)
            reply
            (on_promoted host reply)
            (failure_of (promote_job id p) reply)
    unfolding on_promoted respond
    on_promoted-Fits e id p (submitted r) = unanswered-Errs
    on_promoted-Fits e id p (promoted (ok x)) = (_, promotion e id p x, refl)
    on_promoted-Fits e id p (promoted (err because)) = state_error-Errs because
    on_promoted-Fits e id p (got r) = unanswered-Errs
    on_promoted-Fits e id p (cancelled_job r) = unanswered-Errs
    on_promoted-Fits e id p (listed r) = unanswered-Errs
    on_promoted-Fits e id p (snapshot r) = unanswered-Errs
    on_promoted-Fits e id p no_reply = unanswered-Errs

    pub on_got-Fits :
        (e : Envelope) (id : ℕ) (reply : Reply host)
        → Fits (get_request e id) reply (on_got host reply) (failure_of (get_job id) reply)
    unfolding on_got respond
    on_got-Fits e id (submitted r) = unanswered-Errs
    on_got-Fits e id (promoted r) = unanswered-Errs
    on_got-Fits e id (got (ok x)) = (_, one_job e id x, refl)
    on_got-Fits e id (got (err because)) = state_error-Errs because
    on_got-Fits e id (cancelled_job r) = unanswered-Errs
    on_got-Fits e id (listed r) = unanswered-Errs
    on_got-Fits e id (snapshot r) = unanswered-Errs
    on_got-Fits e id no_reply = unanswered-Errs

    pub on_cancelled-Fits :
        (e : Envelope) (id : ℕ) (reply : Reply host)
        → Fits
            (cancel_request e id)
            reply
            (on_cancelled host reply)
            (failure_of (cancel_job id) reply)
    unfolding on_cancelled respond
    on_cancelled-Fits e id (submitted r) = unanswered-Errs
    on_cancelled-Fits e id (promoted r) = unanswered-Errs
    on_cancelled-Fits e id (got r) = unanswered-Errs
    on_cancelled-Fits e id (cancelled_job (ok x)) = (_, cancellation e id x, refl)
    on_cancelled-Fits e id (cancelled_job (err because)) = state_error-Errs because
    on_cancelled-Fits e id (listed r) = unanswered-Errs
    on_cancelled-Fits e id (snapshot r) = unanswered-Errs
    on_cancelled-Fits e id no_reply = unanswered-Errs

    pub on_listed-Fits :
        (e : Envelope) (project file : Option Text) (st : Option JobStatus) (job_type : Option Text)
        (limit : Option ℕ) (reply : Reply host)
        → Fits
            (list_request e project file st job_type limit)
            reply
            (on_listed host
              (applied_limit host limit)
              (record {
                project_path = project;
                file_path = file;
                status = st;
                job_type = job_type;
              })
              reply)
            (failure_of (list_jobs (list_filter e project file st job_type limit)) reply)
    unfolding on_listed respond
    on_listed-Fits e project file st job_type limit (submitted r) = unanswered-Errs
    on_listed-Fits e project file st job_type limit (promoted r) = unanswered-Errs
    on_listed-Fits e project file st job_type limit (got r) = unanswered-Errs
    on_listed-Fits e project file st job_type limit (cancelled_job r) = unanswered-Errs
    on_listed-Fits e project file st job_type limit (listed (ok x)) =
        (_, listing e project file st job_type limit x, refl)
    on_listed-Fits e project file st job_type limit (listed (err because)) =
        state_error-Errs because
    on_listed-Fits e project file st job_type limit (snapshot r) = unanswered-Errs
    on_listed-Fits e project file st job_type limit no_reply = unanswered-Errs

    pub on_status-Fits :
        (e : Envelope) (reply : Reply host)
        → Fits (status_request e) reply (on_status host session reply) (failure_of status reply)
    unfolding on_status respond
    on_status-Fits e (submitted r) = unanswered-Errs
    on_status-Fits e (promoted r) = unanswered-Errs
    on_status-Fits e (got r) = unanswered-Errs
    on_status-Fits e (cancelled_job r) = unanswered-Errs
    on_status-Fits e (listed r) = unanswered-Errs
    on_status-Fits e (snapshot (ok x)) = (_, state_of e x, refl)
    on_status-Fits e (snapshot (err because)) = state_error-Errs because
    on_status-Fits e no_reply = unanswered-Errs
