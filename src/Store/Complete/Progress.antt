-- ===== src/Store/Complete/Progress.antt =====
-- The progress of a job does not go back (remy-cc/src/state.rs, `update_progress`).
use remy_cc.Prelude.{
  ℕ, ◌≤◌, Bool, true, false, ◌≡◌, refl, Option, none, some, Text, inl, inr, Memᴰ, arith, Bool-cases,
  update_if, mem-update_if,
}
use remy_cc.Host.{Host}
use remy_cc.Job.{JobRow}
use remy_cc.Store.Monad.{Store}
use remy_cc.Store.Monad.Steps.{update_jobs-bind}
use remy_cc.Store.Valid.Rules.{load-keeps, only_load-keeps, throw-keeps}
use remy_cc.Store.Complete.{
  ProgressUpdate, at_most, takes_progress, set_progress, after_progress, progress_in_range,
  progress_range, update_progress,
}

abbrev pub IsNotLess : Option ℕ → Option ℕ → Type 0
IsNotLess none later = Unit {0}
IsNotLess (some a) none = ⊥
IsNotLess (some a) (some b) = a ≤ b

-- Every job is still there, in its state, at the same progress or a later one.
pub record Forward (s t : Store) : Type 0 where
  pub forward :
      (x : JobRow)
      → Memᴰ x s.jobs
      → (y : JobRow) × Memᴰ y t.jobs
        × (y.id ≡ x.id)
        × (y.status ≡ x.status)
        × IsNotLess x.progress_current y.progress_current

same-IsNotLess : (n : Option ℕ) → IsNotLess n n
same-IsNotLess none = tt
same-IsNotLess (some a) = omega arith

at_most-IsNotLess : (n : ℕ) (o : Option ℕ) → at_most n o ≡ true → IsNotLess o (some n)
at_most-IsNotLess n none h = tt
at_most-IsNotLess n (some m) h = ground arith

Forward-refl : (s : Store) → Forward s s
Forward-refl s = record { forward = λ x m. (x, m, refl, refl, same-IsNotLess x.progress_current) }

takes_progress-Forward :
    (s : Store) (job_id current total : ℕ) (message : Text)
    → Forward s (record s {
      jobs = update_if (takes_progress job_id current) (set_progress current total message) s.jobs;
    })
takes_progress-Forward s job_id current total message = record {
  forward = λ x m.
      let there =
        mem-update_if (takes_progress job_id current) (set_progress current total message) s.jobs
          m in
      elim (Bool-cases (takes_progress job_id current x)) [
        | inl t ↦ (
          set_progress current total message x,
          rw t at there,
          refl,
          refl,
          at_most-IsNotLess current x.progress_current (ground arith),
        )
        | inr f ↦ (x, rw f at there, refl, refl, same-IsNotLess x.progress_current)
      ];
}

module _ (host : Host) (s : Store) where
  after_progress-Forward :
      (t : Store)
      → Forward s t
      → (job_id : ℕ) (changed : Bool) → Forward s (after_progress host job_id changed t).1
  unfolding after_progress
  after_progress-Forward t h job_id true = (only_load-keeps (Forward s) host job_id t h).left
  after_progress-Forward t h job_id false =
      (load-keeps (Forward s) host job_id _ t h
        (λ job r found shows. throw-keeps (Forward s) _ t h)).left

  progress_in_range-Forward :
      (job_id : ℕ) (message : Text) (range : Option (ℕ × ℕ))
      → Forward s (progress_in_range host job_id message range s).1
  unfolding progress_in_range
  progress_in_range-Forward job_id message none =
      (throw-keeps (Forward s) _ s (Forward-refl s)).left
  progress_in_range-Forward job_id message (some (current, total)) =
      rw update_jobs-bind
        (after_progress-Forward _ (takes_progress-Forward s job_id current total message) job_id _)

  -- Whatever `update_progress` is told and whatever it returns, every job keeps its state, and its
  -- progress does not go back.
  pub update_progress-Forward :
      (job_id : ℕ) (update : ProgressUpdate) → Forward s (update_progress host job_id update s).1
  unfolding update_progress
  update_progress-Forward job_id update =
      progress_in_range-Forward job_id update.message (progress_range update.current update.total)
