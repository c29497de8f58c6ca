-- ===== src/Store/Runs.antt =====
-- Which jobs execute: the operations of the store that leave them as they are.
pub mod Commands
pub mod Changed
pub mod Finished
pub mod Claimed
use remy_cc.Prelude.{
  ℕ, Bool, true, false, ◌≡◌, refl, sym, ◌∙◌, ap, ◌⊎◌, inl, inr, List, [], ◌∷◌, ◌++◌, Memᴰ,
  Bool-cases, if◌then◌else◌, update_if, mem-update_if, mem-update_if_cases, mem-append_cases,
  mem-append_left, eq_of_mem_singleton,
}
use remy_cc.Job.{JobRow}
use remy_cc.Store.Monad.{Store}
use remy_cc.Store.Valid.{IsExecuting}

-- The row of the id and state of `x` is in the table.
abbrev pub Matches : JobRow → List JobRow → Type 0
Matches x jobs = (y : JobRow) × Memᴰ y jobs × (y.id ≡ x.id) × (y.status ≡ x.status)

-- The same jobs execute, in the same states.
pub record SameRuns (s t : Store) : Type 0 where
  pub forth : (x : JobRow) → Memᴰ x s.jobs → IsExecuting x → Matches x t.jobs
  pub back : (x : JobRow) → Memᴰ x t.jobs → IsExecuting x → Matches x s.jobs

pub SameRuns-refl : (s : Store) → SameRuns s s
SameRuns-refl s = record { forth = λ x m e. (x, m, refl, refl); back = λ x m e. (x, m, refl, refl) }

Matches-trans :
    (x y : JobRow) (jobs : List JobRow)
    → y.id ≡ x.id
    → y.status ≡ x.status
    → Matches y jobs
    → Matches x jobs
Matches-trans x y jobs ei es (z, m, zi, zs) = (z, m, zi ∙ ei, zs ∙ es)

pub IsExecuting-by : (x y : JobRow) → y.status ≡ x.status → IsExecuting x → IsExecuting y
IsExecuting-by x y e h = rw e h

pub SameRuns-trans : {s t u : Store} → SameRuns s t → SameRuns t u → SameRuns s u
SameRuns-trans {s} {t} {u} a b = record {
  forth = λ x m e.
      let (y, my, yi, ys) = a.forth x m e in
      Matches-trans x y u.jobs yi ys (b.forth y my (IsExecuting-by x y ys e));
  back = λ x m e.
      let (y, my, yi, ys) = b.back x m e in
      Matches-trans x y s.jobs yi ys (a.back y my (IsExecuting-by x y ys e));
}

-- An `UPDATE` that changes the state of no executing job, and makes no job executing.
pub update-SameRuns :
    (s : Store) (p : JobRow → Bool) (f : JobRow → JobRow)
    → ((r : JobRow) → (f r).id ≡ r.id)
    → ((r : JobRow) → p r ≡ true → IsExecuting r ⊎ IsExecuting (f r) → (f r).status ≡ r.status)
    → SameRuns s (record s { jobs = update_if p f s.jobs })
update-SameRuns s p f id calm = record {
  forth = λ x m e. elim (Bool-cases (p x)) [
    | inl t ↦ (f x, moved x m t, id x, calm x t (inl e))
    | inr t ↦ (x, stays x m t, refl, refl)
  ];
  back = λ x m e.
      let (y, my, ey) = mem-update_if_cases p f s.jobs m in
      elim (Bool-cases (p y)) [
        | inl t ↦
            let same : x ≡ f y = rw t at ey in
            let st = calm y t (inr (rw same at e)) in
            (y, my, rw same (sym (id y)), rw same (sym st))
        | inr t ↦ let same : x ≡ y = rw t at ey in (y, my, rw same, rw same)
      ];
}
  where
    moved : (x : JobRow) → Memᴰ x s.jobs → p x ≡ true → Memᴰ (f x) (update_if p f s.jobs)
    moved x m t = rw t at (mem-update_if p f s.jobs m)

    stays : (x : JobRow) → Memᴰ x s.jobs → p x ≡ false → Memᴰ x (update_if p f s.jobs)
    stays x m t = rw t at (mem-update_if p f s.jobs m)

-- An `INSERT` of a job that does not execute.
pub insert-SameRuns :
    (s : Store) (r : JobRow) → ¬ IsExecuting r → SameRuns s (record s { jobs = s.jobs ++ r ∷ [] })
insert-SameRuns s r idle = record {
  forth = λ x m e. (x, mem-append_left (r ∷ []) m, refl, refl);
  back = λ x m e. elim (mem-append_cases s.jobs m) [
    | inl old ↦ (x, old, refl, refl)
    | inr new ↦ absurd (idle (rw (eq_of_mem_singleton new) at e))
  ];
}

-- What does not touch the jobs.
pub jobs-SameRuns : (s t : Store) → t.jobs ≡ s.jobs → SameRuns s t
jobs-SameRuns s t e = record {
  forth = λ x m h. (x, rw e m, refl, refl);
  back = λ x m h. (x, rw e at m, refl, refl);
}
