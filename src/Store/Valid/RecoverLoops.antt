-- ===== src/Store/Valid/RecoverLoops.antt =====
-- `recover` keeps the schema, and leaves no job executing.
use mathlib.Core.List.Memᴰ
use remy_cc.Prelude.{
  ℕ, ◌≡◌, ◌≢◌, refl, ◌∙◌, Option, none, some, inl, inr, List, [], ◌∷◌, Memᴰ, Bool-cases,
  mem-update_if_cases, select_if, mem-select_if, unique_of_count, ==_refl,
}
use remy_cc.Host.{Reading}
use remy_cc.Job.{ok, JobStatus, running, cancel_requested, status_eq_refl, JobRow}
use remy_cc.Store.Monad.{Store, has_id, now_millis, programs}
use remy_cc.Store.Monad.Steps.{bind-run, lift-run, transaction-run, query_jobs-bind}
use remy_cc.Store.Transition.{at_status, set_cancelled}
use remy_cc.Store.Submit.{is_status}
use remy_cc.Store.Recover.{
  RecoveryReport, empty_report, recover_all_running, recover_all_cancelling, recover,
}
use remy_cc.Store.Valid.{Valid}
use remy_cc.Store.Valid.Recovers.{
  recovered, successor_of, after_running, after_cancelling, recover_running_lem,
  recover_cancelling_lem, Knows, after_running-keys, requeued-Valid, cancelling-Valid, Covered,
  Covered-round, Knows-round,
}

record Before (s : Store) (rs : List JobRow) : Type 0 where
  valid : Valid s
  covered : Covered running s rs
  known : (r : JobRow) → Memᴰ r rs → Knows s r

abbrev pub Idle : JobStatus → Store → Type 0
Idle st s = (x : JobRow) → Memᴰ x s.jobs → x.status ≢ st

Covered-nil : (st : JobStatus) (s : Store) → Covered st s [] → Idle st s
Covered-nil st s h x m e = let (r, mr, _) = h x m e in absurd (Memᴰ.not-nil mr)

recovered-leaves : (now : ℕ) (t : Option JobRow) (x : JobRow) → (recovered now t x).status ≢ running
recovered-leaves now none x e = cc
recovered-leaves now (some t) x e = cc

Before-round :
    (now : ℕ) (s : Store) (r : JobRow) (rs : List JobRow)
    → Before s (r ∷ rs)
    → Before (after_running now r s) rs
Before-round now s r rs b =
    let f = recovered now (successor_of s r) in
    record {
      valid = requeued-Valid s b.valid now r (b.known r (Memᴰ.head refl)) _ refl;
      covered = Covered-round running f s r rs (recovered-leaves now (successor_of s r)) b.covered;
      known = λ q m.
          Knows-round (at_status r.id running) f s q (after_running-keys now (successor_of s r))
            (b.known q (Memᴰ.tail m));
    }

-- The first loop ends with no job running.
recover_all_running_lem :
    (now : ℕ) (rs : List JobRow) (report : RecoveryReport) (s : Store)
    → Before s rs
    → (report' : RecoveryReport) × (s' : Store) × (recover_all_running now rs report s
        ≡ (ok report', s'))
      × Valid s'
      × Idle running s'
unfolding recover_all_running programs
recover_all_running_lem now [] report s b =
    (report, s, refl, b.valid, Covered-nil running s b.covered)
recover_all_running_lem now (r ∷ rs) report s b =
    rw (recover_running_lem now r report s)
      (recover_all_running_lem now rs _ (after_running now r s) (Before-round now s r rs b))

Idle-cancelling :
    (now : ℕ) (s : Store) (r : JobRow) → Idle running s → Idle running (after_cancelling now r s)
Idle-cancelling now s r h x m e =
    let (x0, m0, e0) = mem-update_if_cases _ (set_cancelled now) s.jobs m in
    elim (Bool-cases (at_status r.id cancel_requested x0)) [
      | inl t ↦ let same : x ≡ set_cancelled now x0 = rw t at e0 in cc (rw same at e)
      | inr t ↦ let same : x ≡ x0 = rw t at e0 in h x0 m0 (rw same at e)
    ]

-- The second loop ends with no job executing.
recover_all_cancelling_lem :
    (now : ℕ) (rs : List JobRow) (report : RecoveryReport) (s : Store)
    → Valid s
    → Idle running s
    → Covered cancel_requested s rs
    → (report' : RecoveryReport) × (s' : Store) × (recover_all_cancelling now rs report s
        ≡ (ok report', s'))
      × Valid s'
      × Idle running s'
      × Idle cancel_requested s'
unfolding recover_all_cancelling programs
recover_all_cancelling_lem now [] report s v idle covered =
    (report, s, refl, v, idle, Covered-nil cancel_requested s covered)
recover_all_cancelling_lem now (r ∷ rs) report s v idle covered =
    rw (recover_cancelling_lem now r report s) (
      recover_all_cancelling_lem now rs _ (after_cancelling now r s) (cancelling-Valid s v now r)
        (Idle-cancelling now s r idle)
        (Covered-round cancel_requested (set_cancelled now) s r rs (λ x e. cc) covered))

-- The rows of a state, as the loops read them.
Covered-selected : (st : JobStatus) (s : Store) → Covered st s (select_if (is_status st) s.jobs)
Covered-selected st s x m e =
    (x, (mem-select_if (is_status st) s.jobs x).1 (m, rw e (status_eq_refl st)), refl)

Before-selected : (s : Store) → Valid s → Before s (select_if (is_status running) s.jobs)
Before-selected s v = record {
  valid = v;
  covered = Covered-selected running s;
  known = λ r m x mx e.
      let (mr, _) = (mem-select_if (is_status running) s.jobs r).0 m in
      let same =
        unique_of_count (has_id r.id) s.jobs (v.job_ids r.id) mx mr (rw e (==_refl r.id))
          (==_refl r.id) in
      rw same (refl, refl, refl);
}

-- Recovery succeeds whenever the clock can be read; then the schema holds, and no job is running or
-- about to be cancelled.
pub recover-Idle :
    (clock : Reading) (now : ℕ) (s : Store)
    → now_millis clock ≡ ok now
    → Valid s
    → (report : RecoveryReport) × (s' : Store) × (recover clock s ≡ (ok report, s'))
      × Valid s'
      × Idle running s'
      × Idle cancel_requested s'
unfolding recover
recover-Idle clock now s e v =
    let (report1, s1, run1, v1, idle1) =
      recover_all_running_lem now (select_if (is_status running) s.jobs) empty_report s
        (Before-selected s v) in
    let (report2, s2, run2, v2, idle2, idle2') =
      recover_all_cancelling_lem now (select_if (is_status cancel_requested) s1.jobs) report1 s1 v1
        idle1 (Covered-selected cancel_requested s1) in
    (
      report2,
      s2,
      rw (e, lift-run)
          (transaction-run _ s
            (rw query_jobs-bind (bind-run _ _ s run1 ∙ rw query_jobs-bind run2))),
      v2,
      idle2,
      idle2',
    )
