-- ===== src/Store/Runs/Finished.antt =====
-- What a successful `confirm_cancelled` or `complete` did (remy-cc/src/state.rs).
use remy_cc.Prelude.{
  ℕ, Bool, true, false, ◌||◌, ◌≡◌, refl, sym, ◌∙◌, some, Text, inl, inr, arith, find_if, Bool-cases,
}
use remy_cc.Host.{Host, Reading}
use remy_cc.Job.{
  ok, JobStatus, pending, running, cancel_requested, succeeded, failed, cancelled, superseded,
  status_eq, JobRow, Job,
}
use remy_cc.Store.Monad.{Store, has_id, now_millis, programs}
use remy_cc.Store.Monad.Steps.{bind-ok, throw-not_ok}
use remy_cc.Store.Monad.Atomic.{lift-ok, transaction-ok}
use remy_cc.Store.Load.{load_job}
use remy_cc.Store.Load.Laws.{load_job-bind_ok, load_job-same}
use remy_cc.Store.Transition.{set_cancelled, transition_job, confirm_from, confirm_cancelled}
use remy_cc.Store.Complete.{
  set_completed, result_column, error_column, encode, finish_completion, complete_from, complete,
}
use remy_cc.Store.Runs.Changed.{changed_store}

module _ (host : Host) (clock : Reading) (job_id : ℕ) (s : Store) where
  -- The job was about to be cancelled, and is cancelled now.
  pub record Confirmed (job : Job host) : Type 0 where
    pub now : ℕ
    pub read : now_millis clock ≡ ok now
    pub row : JobRow
    pub found : find_if (has_id job_id) s.jobs ≡ some row
    pub from : row.status ≡ cancel_requested
    pub after :
        (confirm_cancelled host clock job_id s).1
        ≡ changed_store s job_id cancel_requested (set_cancelled now)

  confirm_from-ok :
      (now : ℕ) (st : JobStatus) {b : Bool}
      → (confirm_from host job_id now st s).0 ≡ ok b
      → (st ≡ cancel_requested)
        × ((confirm_from host job_id now st s).1
            ≡ changed_store s job_id cancel_requested (set_cancelled now))
  unfolding confirm_from transition_job programs
  confirm_from-ok now cancel_requested e = (refl, refl)
  confirm_from-ok now pending e = cc
  confirm_from-ok now running e = cc
  confirm_from-ok now succeeded e = cc
  confirm_from-ok now failed e = cc
  confirm_from-ok now cancelled e = cc
  confirm_from-ok now superseded e = cc

  pub confirm_cancelled-ok :
      (job : Job host) → (confirm_cancelled host clock job_id s).0 ≡ ok job → Confirmed job
  unfolding confirm_cancelled
  confirm_cancelled-ok job e =
      let (now, read, e1, same1) = lift-ok _ _ s e in
      let (e2, same2) = transaction-ok _ s e1 in
      let first = load_job-bind_ok host job_id _ s e2 in
      let second = bind-ok (confirm_from host job_id now first.job.status) _ s first.second in
      let (from, state) = confirm_from-ok now first.job.status second.first in
      record {
        now = now;
        read = read;
        row = first.row;
        found = first.found;
        from = sym first.shows.status ∙ from;
        after = same1 ∙ same2 ∙ first.after ∙ second.after ∙ load_job-same host job_id _ ∙ state;
      }

  -- The job was running, and has the outcome and its payload now.
  pub record Completed (status : JobStatus) (payload : host.Value) (job : Job host) : Type 0 where
    pub now : ℕ
    pub read : now_millis clock ≡ ok now
    pub encoded : Text
    pub written : host.to_string payload ≡ some encoded
    pub row : JobRow
    pub found : find_if (has_id job_id) s.jobs ≡ some row
    pub from : row.status ≡ running
    pub after :
        (complete host clock job_id status payload s).1
        ≡ changed_store s job_id running
            (set_completed status (result_column status encoded) (error_column status encoded) now)
    pub loaded : (load_job host job_id (complete host clock job_id status payload s).1).0 ≡ ok job

  encode-ok :
      (payload : host.Value) {t : Text}
      → encode host payload ≡ ok t
      → host.to_string payload ≡ some t
  unfolding encode
  encode-ok payload h = ground (arith, h)

  finish_completion-ok :
      (t : Store) (changed : Bool) {job : Job host}
      → (finish_completion host job_id changed t).0 ≡ ok job
      → ((finish_completion host job_id changed t).1 ≡ t) × ((load_job host job_id t).0 ≡ ok job)
  unfolding finish_completion programs
  finish_completion-ok t true e = (load_job-same host job_id t, e)
  finish_completion-ok t false e = cc

  complete_from-ok :
      (status : JobStatus) (encoded : Text) (now : ℕ) (st : JobStatus) {job : Job host}
      → (complete_from host job_id status encoded now st s).0 ≡ ok job
      → let t =
          changed_store s job_id running (
            set_completed status
              (result_column status encoded)
              (error_column status encoded)
              now) in
        (st ≡ running)
        × ((complete_from host job_id status encoded now st s).1 ≡ t)
        × ((load_job host job_id t).0 ≡ ok job)
  unfolding complete_from programs
  complete_from-ok status encoded now running e =
      let (same, loaded) = finish_completion-ok _ _ e in (refl, same, loaded)
  complete_from-ok status encoded now cancel_requested e = cc
  complete_from-ok status encoded now pending e = cc
  complete_from-ok status encoded now succeeded e = cc
  complete_from-ok status encoded now failed e = cc
  complete_from-ok status encoded now cancelled e = cc
  complete_from-ok status encoded now superseded e = cc

  completed :
      (status : JobStatus) (payload : host.Value) (job : Job host)
      → (status_eq status succeeded || status_eq status failed) ≡ true
      → (complete host clock job_id status payload s).0 ≡ ok job
      → Completed status payload job
  unfolding complete
  completed status payload job final e =
      let (now, read, e1, same1) = lift-ok _ _ s (rw final at e) in
      let (encoded, written, e2, same2) = lift-ok _ _ s e1 in
      let (e3, same3) = transaction-ok _ s e2 in
      let first = load_job-bind_ok host job_id _ s e3 in
      let (from, state, loaded) =
        complete_from-ok status encoded now first.job.status first.second in
      let same : (complete host clock job_id status payload s).1
          ≡ changed_store s job_id running (
              set_completed status (result_column status encoded) (error_column status encoded)
                now) =
        rw final (same1 ∙ same2 ∙ same3 ∙ first.after ∙ state) in
      record {
        now = now;
        read = read;
        encoded = encoded;
        written = encode-ok payload written;
        row = first.row;
        found = first.found;
        from = sym first.shows.status ∙ from;
        after = same;
        loaded = rw same loaded;
      }

  pub complete-ok :
      (status : JobStatus) (payload : host.Value) (job : Job host)
      → (complete host clock job_id status payload s).0 ≡ ok job
      → Completed status payload job
  unfolding complete
  complete-ok status payload job e =
      elim (Bool-cases (status_eq status succeeded || status_eq status failed)) [
        | inl t ↦ completed status payload job t e
        | inr t ↦ absurd (throw-not_ok _ s (rw t at e))
      ]
