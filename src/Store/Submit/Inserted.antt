-- ===== src/Store/Submit/Inserted.antt =====
-- What an insertion of `submit` returns and leaves (remy-cc/src/state.rs).
use remy_cc.Prelude.{
  ℕ, Bool, ◌≡◌, ◌∙◌, ap, subst, some, List, [], ◌∷◌, ◌++◌, inl, inr, arith, find_if, mem-find_if,
  find_if-append_last, Option-cases, ==_refl,
}
use remy_cc.Host.{Host}
use remy_cc.Job.{ok, JobRow}
use remy_cc.Store.Monad.{Store, has_id, next_job_id, ◌>>=◌, return}
use remy_cc.Store.Monad.Steps.{return-ok, insert_job-bind}
use remy_cc.Store.Load.{load_job}
use remy_cc.Store.Load.Laws.{Shows, load_job-bind_ok}
use remy_cc.Store.Submit.{SubmitResult}
use remy_cc.Store.Valid.Insert.{id-lt-next_job_id}
use remy_cc.Store.Valid.Submits.{inserted}

-- A new row is found by its id.
pub new_found :
    (jobs : List JobRow) (r : JobRow)
    → r.id ≡ next_job_id jobs
    → find_if (has_id (next_job_id jobs)) (jobs ++ r ∷ []) ≡ some r
new_found jobs r e = elim (Option-cases (find_if (has_id (next_job_id jobs)) jobs)) [
  | inl fresh ↦
      find_if-append_last (has_id (next_job_id jobs)) jobs r fresh
        (rw e (==_refl (next_job_id jobs)))
  | inr (b, found) ↦
      let (m, same) = mem-find_if (has_id (next_job_id jobs)) jobs found in
      absurd (ground (arith, id-lt-next_job_id jobs m))
]

-- The tail of a submission: the job of `r` is loaded and returned.
pub loaded_row :
    (host : Host) (t : Store) (id : ℕ) (r : JobRow) (created : Bool) {o : SubmitResult host}
    → find_if (has_id id) t.jobs ≡ some r
    → ((load_job host id >>= λ job. return (record { job = job; created = created })) t).0 ≡ ok o
    → Shows host r o.job
      × (created ≡ o.created)
      × (((load_job host id >>= λ job.
              return {A = SubmitResult host} (record { job = job; created = created }))
            t).1
          ≡ t)
loaded_row host t id r created {o} found h =
    let load = load_job-bind_ok host id _ t h in
    let (result, end) = return-ok _ _ load.second in
    let one : load.row ≡ r = cc (load.found, found) in
    let job : load.job ≡ o.job = ap (λ (x : SubmitResult host). x.job) result in
    (
      subst (λ x. Shows host r x) job (subst (λ x. Shows host x load.job) one load.shows),
      ap (λ (x : SubmitResult host). x.created) result,
      load.after ∙ end,
    )

module _ (host : Host) (s : Store) where
  -- What an insertion returns and leaves.
  pub inserted-ok :
      (row : ℕ → JobRow) (created : Bool) {o : SubmitResult host}
      → ((n : ℕ) → (row n).id ≡ n)
      → (inserted host row created s).0 ≡ ok o
      → let r = row (next_job_id s.jobs) in
        Shows host r o.job
        × (created ≡ o.created)
        × ((inserted host row created s).1 ≡ record s { jobs = s.jobs ++ r ∷ [] })
  inserted-ok row created same h =
      let found = new_found s.jobs (row (next_job_id s.jobs)) (same (next_job_id s.jobs)) in
      let (shows, same_created, end) =
        loaded_row host (record s { jobs = s.jobs ++ row (next_job_id s.jobs) ∷ [] })
          (next_job_id s.jobs) _ created found (rw insert_job-bind at h) in
      (shows, same_created, rw insert_job-bind end)
