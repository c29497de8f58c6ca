-- ===== src/Store/Submit/Absorbed.antt =====
-- What `submit_full_scan` does to the queue of its project (remy-cc/src/state.rs).
use remy_cc.Prelude.{
  ℕ, Bool, true, false, ◌&&◌, ◌||◌, ◌≡◌, refl, ◌∙◌, ap, Option, none, some, List, [], ◌∷◌, ◌++◌,
  Text, ◌⊎◌, inl, inr, Memᴰ, arith, codes, find_if, mem-find_if, find_if-update, find_if-some,
  update_if, mem-append_left, mem-append_last, mem-update_if, mem-update_if_cases, Bool-cases,
  ==_refl,
}
use remy_cc.Host.{Host, Reading}
use remy_cc.Job.{
  ok, background, pending, superseded, status_eq→eq, job_type_eq→eq, incremental_scan, full_scan,
  JobRow, ProjectRow,
}
use remy_cc.Store.Monad.{Store, has_id, next_job_id}
use remy_cc.Store.Monad.Steps.{
  query_project-bind, query_job-bind, insert_job-bind, update_jobs-then, throw-not_ok,
}
use remy_cc.Store.Monad.Atomic.{lift-ok, transaction-ok}
use remy_cc.Store.Load.Laws.{Shows}
use remy_cc.Store.Transition.{set_superseded}
use remy_cc.Store.Submit.{
  SubmitResult, is_type, is_status, is_executing, pending_row, full_scan_dedupe_key,
  start_full_scan, full_scan_of, submit_full_scan,
}
use remy_cc.Store.Submit.Inserted.{loaded_row, new_found}
use remy_cc.Store.Valid.{Valid, IsPending, IsExecuting}
use remy_cc.Store.Valid.FullScans.{is_absorbed}
use remy_cc.Store.Runs.Changed.{same_row, found_row}

-- The full scan of the project waits or executes, and a new one has taken over the project's pending
-- incremental jobs.
pub record Scanning (host : Host) (project_id : ℕ) (o : SubmitResult host) (s t : Store)
    : Type 0 where
  pub row : JobRow
  pub member : Memᴰ row t.jobs
  pub shows : Shows host row o.job
  pub type : row.job_type ≡ full_scan
  pub project : row.project_id ≡ project_id
  pub live : IsPending row ⊎ IsExecuting row
  pub absorbed :
      o.created ≡ true
      → (x : JobRow) → Memᴰ x s.jobs
      → is_type project_id incremental_scan x ≡ true
      → IsPending x
      → (y : JobRow) × Memᴰ y t.jobs
        × (y.id ≡ x.id)
        × (y.status ≡ superseded)
        × (y.superseded_by_job_id ≡ some row.id)
  pub none_waits :
      o.created ≡ true
      → (y : JobRow) → Memᴰ y t.jobs
      → is_type project_id incremental_scan y ≡ true
      → ¬ IsPending y

module _ (host : Host) (project_id : ℕ) (now : ℕ) (s : Store) (v : Valid s) where
  abbrev live_scan : JobRow → Bool
  live_scan r = is_type project_id full_scan r && (is_status pending r || is_executing r)

  waiting :
      (x : JobRow)
      → is_type project_id incremental_scan x ≡ true
      → IsPending x
      → is_absorbed project_id x ≡ true
  waiting x mine waits = rw (mine, waits) refl

  taken :
      (take : JobRow → JobRow) (new : List JobRow) {by : ℕ}
      → ((x : JobRow)
          → ((take x).id ≡ x.id)
            × ((take x).status ≡ superseded)
            × ((take x).superseded_by_job_id ≡ some by))
      → (x : JobRow) → Memᴰ x s.jobs
      → is_type project_id incremental_scan x ≡ true
      → IsPending x
      → (y : JobRow) × Memᴰ y (update_if (is_absorbed project_id) take (s.jobs ++ new))
        × (y.id ≡ x.id)
        × (y.status ≡ superseded)
        × (y.superseded_by_job_id ≡ some by)
  taken take new effect x m mine waits =
      let there =
        mem-update_if (is_absorbed project_id) take (s.jobs ++ new) (mem-append_left new m) in
      let (i, st, by) = effect x in (take x, rw (waiting x mine waits) at there, i, st, by)

  none_left :
      (take : JobRow → JobRow) (jobs : List JobRow)
      → ((x : JobRow) → ¬ IsPending (take x))
      → (y : JobRow) → Memᴰ y (update_if (is_absorbed project_id) take jobs)
      → is_type project_id incremental_scan y ≡ true
      → ¬ IsPending y
  none_left take jobs done y m mine waits =
      let (x, mx, e) = mem-update_if_cases (is_absorbed project_id) take jobs m in
      elim (Bool-cases (is_absorbed project_id x)) [
        | inl t ↦ let same : y ≡ take x = rw t at e in done x (rw same at waits)
        | inr f ↦
            let same : y ≡ x = rw f at e in
            let on = waiting x (rw same at mine) (rw same at waits) in cc (on, f)
      ]

  start_full_scan-Scanning :
      (db : Text) (existing : Option JobRow)
      → find_if live_scan s.jobs ≡ existing
      → {o : SubmitResult host} → (start_full_scan host project_id db now existing s).0 ≡ ok o
      → Scanning host project_id o s (start_full_scan host project_id db now existing s).1
  unfolding start_full_scan
  start_full_scan-Scanning db (some r) e h =
      let (m, mine) = mem-find_if live_scan s.jobs e in
      let (b, found) = find_if-some (has_id r.id) s.jobs m (==_refl r.id) in
      let (mb, ib) = found_row s r.id found in
      let same : b ≡ r = same_row s v b r mb m ib in
      let (shows, old, end) = loaded_row host s r.id r false (found ∙ ap some same) h in
      rw end (record {
        row = r;
        member = m;
        shows = shows;
        type = ground (arith, job_type_eq→eq r.job_type full_scan);
        project = ground arith;
        live = elim (Bool-cases (is_status pending r)) [
          | inl t ↦ inl (status_eq→eq r.status pending t)
          | inr f ↦ inr (ground arith)
        ];
        absorbed = λ new. cc (old, new);
        none_waits = λ new. cc (old, new);
      })
  start_full_scan-Scanning db none e h =
      let n = next_job_id s.jobs in
      let row =
        pending_row project_id full_scan db (codes ".") background now full_scan_dedupe_key n in
      let grown = s.jobs ++ row ∷ [] in
      let take = set_superseded now (some n) in
      let t = record s { jobs = update_if (is_absorbed project_id) take grown } in
      let off : is_absorbed project_id row ≡ false = ground arith in
      let found : find_if (has_id n) t.jobs ≡ some row =
        rw
          (
            find_if-update (has_id n) (is_absorbed project_id) take (λ x. refl) grown,
            new_found s.jobs row refl,
          )
          (rw off refl) in
      let (shows, new, end) =
        loaded_row host t n row true found (rw (insert_job-bind, update_jobs-then) at h) in
      rw (insert_job-bind, update_jobs-then, end)
        (record {
          row = row;
          member =
              rw off at
                (mem-update_if (is_absorbed project_id) take grown (mem-append_last s.jobs));
          shows = shows;
          type = refl;
          project = refl;
          live = inl refl;
          absorbed = λ _. taken take (row ∷ []) (λ x. (refl, refl, refl));
          none_waits = λ _. none_left take grown (λ x h. cc);
        })

  full_scan_of-Scanning :
      (q : Option ProjectRow) {o : SubmitResult host}
      → (full_scan_of host project_id now q s).0 ≡ ok o
      → Scanning host project_id o s (full_scan_of host project_id now q s).1
  unfolding full_scan_of
  full_scan_of-Scanning none h = absurd (throw-not_ok _ s h)
  full_scan_of-Scanning (some q) h =
      rw query_job-bind (start_full_scan-Scanning q.db_path _ refl (rw query_job-bind at h))

-- On valid tables, a full scan that is submitted with success is pending or executing, and if it
-- is new then every pending incremental job of the project is superseded by it, and none waits.
pub submit_full_scan-Scanning :
    (host : Host) (clock : Reading) (s : Store)
    → Valid s
    → (project_id : ℕ) (o : SubmitResult host) → (submit_full_scan host clock project_id s).0 ≡ ok o
    → Scanning host project_id o s (submit_full_scan host clock project_id s).1
unfolding submit_full_scan
submit_full_scan-Scanning host clock s v project_id o h =
    let (now, _, h1, same1) = lift-ok _ _ s h in
    let (h2, same2) = transaction-ok _ s h1 in
    rw (same1 ∙ same2) (
      rw query_project-bind
        (full_scan_of-Scanning host project_id now s v _ (rw query_project-bind at h2)))
