-- ===== src/Store/Claim.antt =====
-- remy-cc/src/state.rs: `claim_next_pending`.
pub mod Order
use remy_cc.Prelude.{
  ℕ, Bool, true, false, not, ◌&&◌, Option, none, some, List, [], ◌∷◌, Text, codes, text_eq, ltb,
  ◌==◌, if◌then◌else◌, select_if, any_if,
}
use remy_cc.Host.{Host, Reading}
use remy_cc.Job.{
  ok, priority_db, pending, running, job_type_eq, corrupt, changed_during_claim, invalid_input,
  unsupported_provider, JobRow, Job,
}
use remy_cc.Store.Monad.{
  M, ◌>>=◌, ◌>>◌, return, throw, lift, transaction, update_jobs, has_id, now_millis,
}
use remy_cc.Store.Load.{load_job}
use remy_cc.Store.Transition.{transition_job}
use remy_cc.Store.Submit.{is_status, is_executing, provider_rust}

-- `ORDER BY j.priority DESC, j.created_at ASC, j.id ASC`: does `a` come before `b`?
unfoldable pub runs_before : JobRow → JobRow → Bool
runs_before a b =
    if ltb (priority_db b.priority) (priority_db a.priority)
    then true
    else if ltb (priority_db a.priority) (priority_db b.priority)
    then false
    else if ltb a.created_at b.created_at
    then true
    else if ltb b.created_at a.created_at
    then false
    else ltb a.id b.id

-- `ORDER BY … LIMIT 1`
unfoldable pub first_by : (JobRow → JobRow → Bool) → List JobRow → Option JobRow
first_by before [] = none
first_by before (r ∷ rs) = elim (first_by before rs) [
  | none ↦ some r
  | some best ↦ some (if before best r then best else r)
]

abbrev pub same_key : JobRow → JobRow → Bool
same_key a b =
    a.project_id == b.project_id
    && job_type_eq a.job_type b.job_type
    && text_eq a.dedupe_key b.dedupe_key

-- An executing job of the key of `r`.
abbrev pub locks : JobRow → JobRow → Bool
locks r active = same_key active r && is_executing active

-- The `WHERE` clause: pending, with no executing job of the same key.
unfoldable pub is_claimable : List JobRow → JobRow → Bool
is_claimable jobs r = is_status pending r && not (any_if (locks r) jobs)

abbrev pub next_claim : List JobRow → Option JobRow
next_claim jobs = first_by runs_before (select_if (is_claimable jobs) jobs)

unfoldable pub query_next : M (Option JobRow)
query_next s = (ok (next_claim s.jobs), s)

abbrev pub stage_claimed : Text → JobRow → JobRow
stage_claimed provider r = record r {
  provider = provider;
  progress_current = some 0;
  progress_total = some 3;
  progress_message = some (codes "runtime_validation");
}

module _ (host : Host) where
  unfoldable pub finish_claim : Text → ℕ → Bool → M (Option (Job host))
  finish_claim provider job_id false = throw (corrupt (changed_during_claim job_id))
  finish_claim provider job_id true = do
    update_jobs (has_id job_id) (stage_claimed provider)
    job ← load_job host job_id
    return (some job)

  unfoldable pub claim : Text → ℕ → Option JobRow → M (Option (Job host))
  unfolding finish_claim
  claim provider now none = return none
  claim provider now (some r) = do
    moved ← transition_job r.id pending running now none
    finish_claim provider r.id moved

  unfoldable pub claim_next_pending : Reading → Text → M (Option (Job host))
  unfolding claim query_next
  claim_next_pending clock provider =
      if text_eq provider provider_rust
      then (do now ← lift (now_millis clock); transaction do r ← query_next; claim provider now r)
      else throw (invalid_input (unsupported_provider provider))
