-- ===== src/Store/Runs/Changed.antt =====
-- An `UPDATE` of one job in a known state, as the transitions of the store do it
-- (remy-cc/src/state.rs, `transition_job` and `complete`).
use remy_cc.Prelude.{
  ℕ, true, false, ◌≡◌, ap, some, ◌⊎◌, inl, inr, Memᴰ, arith, ◌==◌, ==_refl, Bool-cases, find_if,
  mem-find_if, count_if, count_if_pos, count_if-le, update_if, find_if-update, mem-update_if,
  mem-update_if_cases, unique_of_count,
}
use remy_cc.Job.{JobStatus, status_eq_refl, JobRow}
use remy_cc.Store.Monad.{Store, has_id}
use remy_cc.Store.Transition.{at_status}
use remy_cc.Store.Valid.{Valid}
use remy_cc.Store.Valid.Transitions.{at_status→}

-- The rows of an id are one row.
pub same_row :
    (s : Store) → Valid s → (x y : JobRow) → Memᴰ x s.jobs → Memᴰ y s.jobs → x.id ≡ y.id → x ≡ y
same_row s v x y mx my e =
    unique_of_count (has_id y.id) s.jobs (v.job_ids y.id) mx my (rw e (==_refl y.id)) (==_refl y.id)

pub found_row :
    (s : Store) (id : ℕ) {r : JobRow}
    → find_if (has_id id) s.jobs ≡ some r
    → Memᴰ r s.jobs × (r.id ≡ id)
found_row s id {r} h = let (m, e) = mem-find_if (has_id id) s.jobs h in (m, ground (arith, e))

-- An `UPDATE` of the job `j` in the state `from`, at the row that it changes.
module _ (s : Store) (j : ℕ) (from : JobStatus) (f : JobRow → JobRow) where
  abbrev pub changed_store : Store
  changed_store = record s { jobs = update_if (at_status j from) f s.jobs }

  pub at_status-found : (r : JobRow) → r.id ≡ j → r.status ≡ from → at_status j from r ≡ true
  at_status-found r i e = rw (i, e) (ground (arith, ==_refl j, status_eq_refl from))

  pub find-changed :
      ((x : JobRow) → (f x).id ≡ x.id)
      → (r : JobRow) → find_if (has_id j) s.jobs ≡ some r
      → r.status ≡ from
      → find_if (has_id j) changed_store.jobs ≡ some (f r)
  find-changed same_id r found e =
      let (m, i) = found_row s j found in
      rw
        (
          find_if-update (has_id j) (at_status j from) f (λ x. ap (λ (n : ℕ). n == j) (same_id x))
              s.jobs,
          found,
        )
        (rw (at_status-found r i e))

  -- A row behind the statement is `f r` or a row that the statement left alone.
  pub mem-changed :
      {x : JobRow}
      → Memᴰ x changed_store.jobs
      → ((r : JobRow) × Memᴰ r s.jobs × (r.id ≡ j) × (r.status ≡ from) × (x ≡ f r))
        ⊎ (Memᴰ x s.jobs × (at_status j from x ≡ false))
  mem-changed m =
      let (y, my, e) = mem-update_if_cases (at_status j from) f s.jobs m in
      elim (Bool-cases (at_status j from y)) [
        | inl t ↦ let (i, st) = at_status→ j from y t in inl (y, my, i, st, rw t at e)
        | inr t ↦ let same = rw t at e in inr (rw same my, rw same t)
      ]

  pub changed-mem :
      (r : JobRow) → Memᴰ r s.jobs → r.id ≡ j → r.status ≡ from → Memᴰ (f r) changed_store.jobs
  changed-mem r m i e = rw (at_status-found r i e) at (mem-update_if (at_status j from) f s.jobs m)

  -- It changes one row.
  pub changed-count :
      Valid s
      → (r : JobRow) → Memᴰ r s.jobs
      → r.id ≡ j
      → r.status ≡ from
      → count_if (at_status j from) s.jobs ≡ 1
  changed-count v r m i e =
      let low = count_if_pos (at_status j from) s.jobs m (at_status-found r i e) in
      let high = count_if-le (at_status j from) (has_id j) s.jobs (λ x h. ground arith) in
      omega (arith, v.job_ids j)
