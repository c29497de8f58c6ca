-- ===== src/Store/Complete/Payload.antt =====
-- The end of a running job: its payload is kept and read back (remy-cc/src/state.rs, `complete`).
use remy_cc.Prelude.{
  ℕ, true, ◌||◌, ◌≡◌, refl, ◌∙◌, Option, none, some, List, subst, Text, ◌⊎◌, inl, inr, arith,
  find_if,
}
use remy_cc.Host.{Host, Reading, RoundTrips}
use remy_cc.Job.{Result, ok, JobStatus, running, succeeded, failed, status_eq, JobRow, Job}
use remy_cc.Store.Monad.{Store, has_id, now_millis}
use remy_cc.Store.Monad.Steps.{bind-run, lift-run, transaction-run, run_of, update_jobs-bind}
use remy_cc.Store.Load.{load_job, parse_json}
use remy_cc.Store.Load.Laws.{Shows, Readable, load_job-same, load_job-Shows, load_job-ok}
use remy_cc.Store.Complete.{
  set_completed, result_column, error_column, encode, finish_completion, complete_from, complete,
}
use remy_cc.Store.Valid.{Valid, checks}
use remy_cc.Store.Runs.Changed.{found_row, changed_store, find-changed, changed-count}

-- The row that `complete` leaves.
abbrev pub completed_row : JobStatus → Text → ℕ → JobRow → JobRow
completed_row st encoded now =
    set_completed st (result_column st encoded) (error_column st encoded) now

-- The payload stands in the column of the outcome, and the other is empty.
abbrev pub Carries : (host : Host) → JobStatus → host.Value → Job host → Type 0
Carries host succeeded v job = (job.result ≡ some v) × (job.error ≡ none)
Carries host failed v job = (job.result ≡ none) × (job.error ≡ some v)
Carries host _ v job = ⊥

running-payloads :
    (r : JobRow)
    → checks r ≡ true
    → r.status ≡ running
    → (r.result_json ≡ none) × (r.error_json ≡ none)
unfolding checks
running-payloads r c e = (ground arith, ground arith)

running-Readable :
    (host : Host) (r : JobRow) → checks r ≡ true → r.status ≡ running → Readable host r
unfolding parse_json
running-Readable host r c e =
    let (no_result, no_error) = running-payloads r c e in
    record { result = (none, rw no_result refl); error = (none, rw no_error refl) }

module _ (host : Host) (trips : RoundTrips host) (payload : host.Value) (encoded : Text)
    (written : host.to_string payload ≡ some encoded) (now : ℕ) where
  completed-Readable :
      (st : JobStatus) (r : JobRow)
      → (st ≡ succeeded) ⊎ (st ≡ failed)
      → Readable host (completed_row st encoded now r)
  unfolding parse_json
  completed-Readable st r (inl e) =
      let back = trips.from_str-to_string payload written in
      rw e (record { result = (some payload, rw back refl); error = (none, refl) })
  completed-Readable st r (inr e) =
      let back = trips.from_str-to_string payload written in
      rw e (record { result = (none, refl); error = (some payload, rw back refl) })

  completed-Carries :
      (st : JobStatus) (r : JobRow) (job : Job host)
      → (st ≡ succeeded) ⊎ (st ≡ failed)
      → Shows host (completed_row st encoded now r) job
      → Carries host st payload job
  unfolding parse_json
  completed-Carries succeeded r job final shows =
      let back = trips.from_str-to_string payload written in
      let got : Path (Result (Option host.Value)) (ok (some payload)) (ok job.result) =
        rw back at shows.result in
      (cc, cc (shows.error))
  completed-Carries failed r job final shows =
      let back = trips.from_str-to_string payload written in
      let got : Path (Result (Option host.Value)) (ok (some payload)) (ok job.error) =
        rw back at shows.error in
      (cc (shows.result), cc)
  completed-Carries _ r job (inl e) shows = cc
  completed-Carries _ r job (inr e) shows = cc

module _ (host : Host) (trips : RoundTrips host) (clock : Reading) (now : ℕ)
    (read : now_millis clock ≡ ok now) (s : Store) (v : Valid s) (job_id : ℕ) (r : JobRow)
    (found : find_if (has_id job_id) s.jobs ≡ some r) (from : r.status ≡ running) where
  -- The job of a row with readable payloads is loaded from any tables with the projects of `s`.
  load_in :
      (jobs : List JobRow) (q : JobRow)
      → find_if (has_id job_id) jobs ≡ some q
      → q.project_id ≡ r.project_id
      → Readable host q
      → (job : Job host) × (load_job host job_id (record s { jobs = jobs })
          ≡ (ok job, record s { jobs = jobs }))
        × Shows host q job
  load_in jobs q at_q same readable =
      let t = record s { jobs = jobs } in
      let (p, at_p) = v.job_project r (found_row s job_id found).0 in
      let (job, loaded) = load_job-ok host job_id t q p at_q (rw same at_p) readable in
      let (q', at_q', shows) = load_job-Shows host job_id t loaded in
      let one : q' ≡ q = ground arith in
      (
        job,
        run_of (load_job host job_id) t loaded (load_job-same host job_id t),
        subst (λ x. Shows host x job) one shows,
      )

  is_final :
      (st : JobStatus)
      → (st ≡ succeeded) ⊎ (st ≡ failed)
      → (status_eq st succeeded || status_eq st failed) ≡ true
  is_final st (inl e) = rw e refl
  is_final st (inr e) = rw e refl

  encoded-ok :
      (payload : host.Value) (encoded : Text)
      → host.to_string payload ≡ some encoded
      → encode host payload ≡ ok encoded
  unfolding encode
  encoded-ok payload encoded written = rw (written, encode) refl

  complete_from-run :
      (st : JobStatus) (encoded : Text) {res : Result (Job host) × Store}
      → load_job host job_id (changed_store s job_id running (completed_row st encoded now)) ≡ res
      → complete_from host job_id st encoded now running s ≡ res
  unfolding complete_from finish_completion
  complete_from-run st encoded load_after =
      let f = completed_row st encoded now in
      let (m, i) = found_row s job_id found in
      rw (update_jobs-bind, changed-count s job_id running f v r m i from) load_after

  complete-run :
      (st : JobStatus) (payload : host.Value) (encoded : Text) (current job : Job host)
      → (st ≡ succeeded) ⊎ (st ≡ failed)
      → host.to_string payload ≡ some encoded
      → load_job host job_id s ≡ (ok current, s)
      → current.status ≡ running
      → let t = changed_store s job_id running (completed_row st encoded now) in
        load_job host job_id t ≡ (ok job, t) → complete host clock job_id st payload s ≡ (ok job, t)
  unfolding complete
  complete-run st payload encoded current job final written load_current at_work load_after =
      rw (is_final st final, read, lift-run, encoded-ok payload encoded written, lift-run)
        (transaction-run _ s (
          bind-run (load_job host job_id) _ s load_current
          ∙ rw at_work (complete_from-run st encoded load_after)))

  -- On valid tables with a readable clock, a running job whose payload can be written ends: `complete`
  -- returns it in the state of the outcome with exactly that payload, and changes only its row; a later
  -- load returns the same job. serde_json is assumed to read back what it wrote.
  pub complete_lem :
      (st : JobStatus) (payload : host.Value) (encoded : Text)
      → (st ≡ succeeded) ⊎ (st ≡ failed)
      → host.to_string payload ≡ some encoded
      → let t = changed_store s job_id running (completed_row st encoded now) in
        (job : Job host) × (complete host clock job_id st payload s ≡ (ok job, t))
        × (load_job host job_id t ≡ (ok job, t))
        × Shows host (completed_row st encoded now r) job
        × Carries host st payload job
  complete_lem st payload encoded final written =
      let (m, i) = found_row s job_id found in
      let f = completed_row st encoded now in
      let t = changed_store s job_id running f in
      let (current, load_current, shows_current) =
        load_in s.jobs r found refl (running-Readable host r (v.checked r m) from) in
      let (job, load_after, shows) =
        load_in t.jobs (f r) (find-changed s job_id running f (λ x. refl) r found from) refl
          (completed-Readable host trips payload encoded written now st r final) in
      (
        job,
        complete-run st payload encoded current job final written load_current
            (shows_current.status ∙ from) load_after,
        load_after,
        shows,
        completed-Carries host trips payload encoded written now st r job final shows,
      )
