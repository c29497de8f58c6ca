-- ===== src/Store/Runs/Claimed.antt =====
-- What `claim_next_pending` does (remy-cc/src/state.rs): which job it starts, and that it never fails
-- on valid tables once the clock can be read.
use remy_cc.Prelude.{
  ℕ, true, ◌≡◌, refl, ◌∙◌, ap, subst, Option, none, some, Text, arith, Memᴰ, find_if, update_if,
  text_eq_refl, ==_refl, find_if-update, find_if-some,
}
use remy_cc.Host.{Host, Reading}
use remy_cc.Job.{ok, pending, running, JobRow, Job}
use remy_cc.Store.Monad.{Store, has_id, now_millis, programs}
use remy_cc.Store.Monad.Steps.{
  bind-run, lift-run, transaction-run, return-run, run_of, update_jobs-then,
}
use remy_cc.Store.Load.{load_job, parse_json}
use remy_cc.Store.Load.Laws.{Shows, Readable, load_job-same, load_job-Shows, load_job-ok}
use remy_cc.Store.Transition.{set_running, transition_job}
use remy_cc.Store.Submit.{provider_rust}
use remy_cc.Store.Claim.{next_claim, stage_claimed, finish_claim, claim, claim_next_pending}
use remy_cc.Store.Valid.{Valid, IsPending, checks}
use remy_cc.Store.Claim.Order.{Claimable}
use remy_cc.Store.Valid.Claims.{next_claim-Claimable, query_next-bind}
use remy_cc.Store.Runs.Changed.{same_row, found_row, changed_store, find-changed, changed-count}

-- The tables behind the claim of the job `r`.
abbrev pub claimed_store : Text → ℕ → JobRow → Store → Store
claimed_store provider now r s =
    let t = changed_store s r.id pending (set_running now) in
    record t { jobs = update_if (has_id r.id) (stage_claimed provider) t.jobs }

module _ (host : Host) (now : ℕ) (s : Store) (v : Valid s) where
  found_claimed :
      (r : JobRow)
      → Memᴰ r s.jobs
      → IsPending r
      → find_if (has_id r.id) (claimed_store provider_rust now r s).jobs
        ≡ some (stage_claimed provider_rust (set_running now r))
  found_claimed r m e =
      let (b, found) = find_if-some (has_id r.id) s.jobs m (==_refl r.id) in
      let (mb, ib) = found_row s r.id found in
      let same = same_row s v b r mb m ib in
      let at_r : find_if (has_id r.id) s.jobs ≡ some r = found ∙ ap some same in
      let first = find-changed s r.id pending (set_running now) (λ x. refl) r at_r e in
      rw
        (
          find_if-update (has_id r.id) (has_id r.id) (stage_claimed provider_rust) (λ x. refl) _,
          first,
        )
        (rw (==_refl r.id) refl)

  pending-payloads :
      (r : JobRow) → checks r ≡ true → IsPending r → (r.result_json ≡ none) × (r.error_json ≡ none)
  unfolding checks
  pending-payloads r c e = (ground arith, ground arith)

  -- A pending job has no payload, so it is loaded.
  pending-Readable :
      (r : JobRow)
      → Memᴰ r s.jobs
      → IsPending r
      → Readable host (stage_claimed provider_rust (set_running now r))
  unfolding parse_json
  pending-Readable r m e =
      let (no_result, no_error) = pending-payloads r (v.checked r m) e in
      record { result = (none, rw no_result refl); error = (none, rw no_error refl) }

  load_claimed :
      (r : JobRow)
      → Claimable s.jobs r
      → (job : Job host) × ((load_job host r.id (claimed_store provider_rust now r s)).0 ≡ ok job)
  load_claimed r c =
      let (p, at_p) = v.job_project r c.member in
      load_job-ok host r.id (claimed_store provider_rust now r s) _ p
        (found_claimed r c.member c.waiting) at_p (pending-Readable r c.member c.waiting)

  started :
      (r : JobRow)
      → Claimable s.jobs r
      → transition_job r.id pending running now none s
        ≡ (ok true, changed_store s r.id pending (set_running now))
  unfolding transition_job programs
  started r c = rw (changed-count s r.id pending (set_running now) v r c.member refl c.waiting) refl

  finished :
      (r : JobRow) (job : Job host)
      → (load_job host r.id (claimed_store provider_rust now r s)).0 ≡ ok job
      → finish_claim host provider_rust r.id true (changed_store s r.id pending (set_running now))
        ≡ (ok (some job), claimed_store provider_rust now r s)
  unfolding finish_claim
  finished r job e =
      let t = claimed_store provider_rust now r s in
      let loaded : load_job host r.id t ≡ (ok job, t) =
        run_of (load_job host r.id) t e (load_job-same host r.id t) in
      update_jobs-then _ (has_id r.id) (stage_claimed provider_rust) _
      ∙ bind-run (load_job host r.id) _ t loaded
      ∙ return-run _ _

  -- What `claim` does with the answer of the query.
  abbrev pub claim_effect : Option JobRow → Store
  claim_effect none = s
  claim_effect (some r) = claimed_store provider_rust now r s

  -- The job that is returned is the row that was picked, as the tables show it now.
  abbrev pub Returns : Option JobRow → Option (Job host) → Type 0
  Returns none none = Unit {0}
  Returns (some r) (some job) = Shows host (stage_claimed provider_rust (set_running now r)) job
  Returns _ _ = ⊥

  claim_picked :
      (picked : Option JobRow)
      → next_claim s.jobs ≡ picked
      → (job : Option (Job host)) × (claim host provider_rust now picked s
          ≡ (ok job, claim_effect picked))
        × Returns picked job
  unfolding claim
  claim_picked none e = (none, return-run none s, tt)
  claim_picked (some r) e =
      let c = next_claim-Claimable s.jobs e in
      let (job, loaded) = load_claimed r c in
      let (shown, found, shows) =
        load_job-Shows host r.id (claimed_store provider_rust now r s) loaded in
      let same : shown ≡ stage_claimed provider_rust (set_running now r) =
        ground (arith, found_claimed r c.member c.waiting) in
      (
        some job,
        bind-run (transition_job r.id pending running now none) _ s (started r c)
            ∙ finished r job loaded,
        subst (λ x. Shows host x job) same shows,
      )

  -- Once the clock can be read, a claim on valid tables succeeds: it starts the first pending job
  -- by priority and age whose key is not in use, returns the job, and changes no other row; if there is
  -- no such job, it changes nothing.
  pub claim_next_pending_lem :
      (clock : Reading)
      → now_millis clock ≡ ok now
      → (job : Option (Job host)) × (claim_next_pending host clock provider_rust s
          ≡ (ok job, claim_effect (next_claim s.jobs)))
        × Returns (next_claim s.jobs) job
  unfolding claim_next_pending
  claim_next_pending_lem clock read =
      let (job, run, returns) = claim_picked (next_claim s.jobs) refl in
      (
        job,
        rw (text_eq_refl provider_rust, read, lift-run)
            (transaction-run _ s (query_next-bind s _ ∙ run)),
        returns,
      )
