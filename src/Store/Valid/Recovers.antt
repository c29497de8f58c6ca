-- ===== src/Store/Valid/Recovers.antt =====
-- One round of the loops of `recover`.
use mathlib.Core.List.Memᴰ
use remy_cc.Prelude.{
  ℕ, Bool, ◌≡◌, ◌≢◌, refl, sym, ◌∙◌, ap, Option, none, some, inl, inr, List, ◌∷◌, Memᴰ, arith,
  text_eq_refl, ◌==◌, Bool-cases, find_if, find_if-none, mem-find_if, count_if, update_if,
  mem-update_if_cases,
}
use remy_cc.Job.{
  ok, JobStatus, pending, running, cancel_requested, cancelled, superseded, job_type_eq_refl,
  status_eq_refl, JobRow,
}
use remy_cc.Store.Monad.{Store, programs}
use remy_cc.Store.Transition.{
  at_status, set_requeued, set_superseded, set_cancelled, transition_job,
}
use remy_cc.Store.Submit.{is_pending_of}
use remy_cc.Store.Recover.{
  RecoveryReport, count_superseded, count_requeued, count_cancelled, requeue_or_supersede,
  recover_running, recover_cancelling,
}
use remy_cc.Store.Valid.{SameKey, Valid}
use remy_cc.Store.Valid.Transitions.{Admits-final, transition_job-Valid}

-- What the first loop does to the job of `r`, from what it finds pending under the key of `r`.
abbrev pub recovered : ℕ → Option JobRow → JobRow → JobRow
recovered now none = set_requeued
recovered now (some t) = set_superseded now (some t.id)

abbrev pub counted : Option JobRow → RecoveryReport → Bool → RecoveryReport
counted none = count_requeued
counted (some t) = count_superseded

abbrev pub successor_of : Store → JobRow → Option JobRow
successor_of s r = find_if (is_pending_of r.project_id r.job_type r.dedupe_key) s.jobs

abbrev pub after_running : ℕ → JobRow → Store → Store
after_running now r s = record s {
  jobs = update_if (at_status r.id running) (recovered now (successor_of s r)) s.jobs;
}

abbrev pub after_cancelling : ℕ → JobRow → Store → Store
after_cancelling now r s = record s {
  jobs = update_if (at_status r.id cancel_requested) (set_cancelled now) s.jobs;
}

requeue_or_supersede_lem :
    (now : ℕ) (r : JobRow) (report : RecoveryReport) (t : Option JobRow) (s : Store)
    → requeue_or_supersede now r report t s ≡ (
      ok (counted t report (count_if (at_status r.id running) s.jobs == 1)),
      record s { jobs = update_if (at_status r.id running) (recovered now t) s.jobs },
    )
unfolding requeue_or_supersede programs
requeue_or_supersede_lem now r report none s = refl
requeue_or_supersede_lem now r report (some t) s = refl

-- A round of the first loop never fails.
pub recover_running_lem :
    (now : ℕ) (r : JobRow) (report : RecoveryReport) (s : Store)
    → recover_running now r report s ≡ (
      ok (counted (successor_of s r) report (count_if (at_status r.id running) s.jobs == 1)),
      after_running now r s,
    )
unfolding recover_running programs
recover_running_lem now r report s = requeue_or_supersede_lem now r report (successor_of s r) s

pub recover_cancelling_lem :
    (now : ℕ) (r : JobRow) (report : RecoveryReport) (s : Store)
    → recover_cancelling now r report s ≡ (
      ok (count_cancelled report (count_if (at_status r.id cancel_requested) s.jobs == 1)),
      after_cancelling now r s,
    )
unfolding recover_cancelling programs
recover_cancelling_lem now r report s = refl

-- The rows of the id of `r` have the key of `r`: what a round knows of a row that was read before.
abbrev pub Knows : Store → JobRow → Type 0
Knows s r = (x : JobRow) → Memᴰ x s.jobs → x.id ≡ r.id → SameKey x r

pub after_running-keys :
    (now : ℕ) (t : Option JobRow) (x : JobRow)
    → ((recovered now t x).id ≡ x.id) × SameKey (recovered now t x) x
after_running-keys now none x = (refl, (refl, refl, refl))
after_running-keys now (some t) x = (refl, (refl, refl, refl))

module _ (s : Store) (v : Valid s) (now : ℕ) (r : JobRow) (known : Knows s r) where
  pub requeued-Valid :
      (t : Option JobRow)
      → successor_of s r ≡ t
      → Valid (record s { jobs = update_if (at_status r.id running) (recovered now t) s.jobs })
  unfolding transition_job programs
  requeued-Valid none e = transition_job-Valid s v r.id running pending now none (record {
    queue = λ _ x y mx my same waiting key.
        let (k0, k1, k2) = key in
        let (j0, j1, j2) = known x mx same in
        let free = find_if-none _ s.jobs e y my in
        ground (arith, free, job_type_eq_refl r.job_type, text_eq_refl r.dedupe_key);
    run = λ e'. cc;
    supersede = λ e'. cc;
  })
  requeued-Valid (some t) e =
      transition_job-Valid s v r.id running superseded now (some t.id) (record {
        queue = λ e'. cc;
        run = λ e'. cc;
        supersede = λ _. (t.id, refl, (t, (mem-find_if _ s.jobs e).0, refl));
      })

pub cancelling-Valid :
    (s : Store) → Valid s → (now : ℕ) (r : JobRow) → Valid (after_cancelling now r s)
unfolding transition_job programs
cancelling-Valid s v now r =
    transition_job-Valid s v r.id cancel_requested cancelled now none
      (Admits-final s r.id cancelled none refl refl refl)

-- The jobs in the state `st` that a loop has still to see are those in its list.
abbrev pub Covered : JobStatus → Store → List JobRow → Type 0
Covered st s rs =
    (x : JobRow) → Memᴰ x s.jobs → x.status ≡ st → (r : JobRow) × Memᴰ r rs × (x.id ≡ r.id)

-- One round takes its own job out of the state.
pub Covered-round :
    (st : JobStatus) (f : JobRow → JobRow) (s : Store) (r : JobRow) (rs : List JobRow)
    → ((x : JobRow) → (f x).status ≢ st)
    → Covered st s (r ∷ rs)
    → Covered st (record s { jobs = update_if (at_status r.id st) f s.jobs }) rs
Covered-round st f s r rs leaves h x m e =
    let (x0, m0, e0) = mem-update_if_cases (at_status r.id st) f s.jobs m in
    elim (Bool-cases (at_status r.id st x0)) [
      | inl t ↦ absurd (leaves x0 (rw (e0, t) at e))
      | inr t ↦
          let same : x ≡ x0 = rw t at e0 in
          let st0 : x0.status ≡ st = rw same at e in
          let (q, mq, eq) = h x0 m0 st0 in
          elim (Memᴰ.cases_cons mq) [
            | inl head ↦
                let id0 = eq ∙ ap (λ (y : JobRow). y.id) head in
                absurd (ground (arith, t, status_eq_refl st))
            | inr later ↦ (q, later, rw same eq)
          ]
    ]

-- A round keeps what the later rounds know.
pub Knows-round :
    (p : JobRow → Bool) (f : JobRow → JobRow) (s : Store) (r : JobRow)
    → ((x : JobRow) → ((f x).id ≡ x.id) × SameKey (f x) x)
    → Knows s r
    → Knows (record s { jobs = update_if p f s.jobs }) r
Knows-round p f s r keeps h x m e =
    let (x0, m0, e0) = mem-update_if_cases p f s.jobs m in
    elim (Bool-cases (p x0)) [
      | inl t ↦
          let same : x ≡ f x0 = rw t at e0 in
          let (id, (a0, a1, a2)) = keeps x0 in
          let (b0, b1, b2) = h x0 m0 (sym id ∙ ap (λ (y : JobRow). y.id) (sym same) ∙ e) in
          rw same (a0 ∙ b0, a1 ∙ b1, a2 ∙ b2)
      | inr t ↦ let same : x ≡ x0 = rw t at e0 in rw same (h x0 m0 (rw same at e))
    ]
