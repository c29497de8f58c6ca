-- ===== src/Tests/Samples.antt =====
-- Tables with a running and a pending job of one project.
use remy_cc.Prelude.{
  ◌≡◌, refl, sym, ◌∙◌, ap, none, some, [], ◌∷◌, Memᴰ, arith, codes, mem-cons_cases,
  eq_of_mem_singleton, inl, inr, ◌⊎◌, not-mem-nil, count_if, find_if, text_eq,
}
use remy_cc.Job.{background, interactive, incremental_scan, running, JobRow, ProjectRow}
use remy_cc.Store.Monad.{Store}
use remy_cc.Store.Submit.{pending_row}
use remy_cc.Store.Valid.{checks, provider_ok, IsPending, IsExecuting, Valid}
use remy_cc.Tests.Demo.{empty_store}

pub empty-Valid : Valid empty_store
unfolding count_if
empty-Valid = record {
  checked = λ r m. absurd (not-mem-nil m);
  job_ids = λ i. omega arith;
  one_pending = λ a b ma mb. absurd (not-mem-nil ma);
  one_executing = λ a b ma mb. absurd (not-mem-nil ma);
  job_project = λ r m. absurd (not-mem-nil m);
  successor = λ r i m e. absurd (not-mem-nil m);
  project_ids = λ i. omega arith;
  project_keys = λ k. omega arith;
  published_checked = refl;
  project_times = λ p m. absurd (not-mem-nil m);
}

pub empty-idle : (x : JobRow) → Memᴰ x empty_store.jobs → ¬ IsExecuting x
empty-idle x m = absurd (not-mem-nil m)

abbrev pub repo : ProjectRow
repo = record {
  id = 1;
  project_key = codes "/repo";
  project_path = codes "/repo";
  db_path = codes "/repo/db";
  created_at = 1;
  last_seen_at = 2;
}

abbrev pub waiting_job : JobRow
waiting_job =
    pending_row 1 incremental_scan (codes "/repo/db") (codes "b.py") interactive 4
      (codes "incremental_scan:b.py") 2

abbrev pub running_job : JobRow
running_job =
    record (pending_row 1 incremental_scan (codes "/repo/db") (codes "a.py") background 3
      (codes "incremental_scan:a.py") 1) { status = running; started_at = some 5 }

abbrev pub busy_store : Store
busy_store = record {
  projects = repo ∷ [];
  jobs = running_job ∷ waiting_job ∷ [];
  published = none;
}

busy_cases : {x : JobRow} → Memᴰ x busy_store.jobs → (x ≡ running_job) ⊎ (x ≡ waiting_job)
busy_cases m = elim (mem-cons_cases m) [ inl e ↦ inl e | inr m' ↦ inr (eq_of_mem_singleton m') ]

pub busy-pending : (x : JobRow) → Memᴰ x busy_store.jobs → IsPending x → x.id ≡ 2
busy-pending x m e = elim (busy_cases m) [
  | inl r ↦ cc (rw r at e)
  | inr r ↦ ap (λ (y : JobRow). y.id) r
]

pub busy-executing : (x : JobRow) → Memᴰ x busy_store.jobs → IsExecuting x → x.id ≡ 1
busy-executing x m e = elim (busy_cases m) [
  | inl r ↦ ap (λ (y : JobRow). y.id) r
  | inr r ↦ cc (rw r at e)
]

pub busy-Valid : Valid busy_store
unfolding count_if checks find_if provider_ok text_eq
busy-Valid = record {
  checked = λ r m. elim (busy_cases m) [ inl e ↦ rw e refl | inr e ↦ rw e refl ];
  job_ids = λ i. ground arith;
  one_pending = λ a b ma mb pa pb key. busy-pending a ma pa ∙ sym (busy-pending b mb pb);
  one_executing = λ a b ma mb pa pb key. busy-executing a ma pa ∙ sym (busy-executing b mb pb);
  job_project =
      λ r m. elim (busy_cases m) [ inl e ↦ rw e (repo, refl) | inr e ↦ rw e (repo, refl) ];
  successor = λ r i m by. elim (busy_cases m) [ inl e ↦ cc (rw e at by) | inr e ↦ cc (rw e at by) ];
  project_ids = λ i. ground arith;
  project_keys = λ k. ground arith;
  published_checked = refl;
  project_times = λ p m. rw (eq_of_mem_singleton m) (omega arith);
}
