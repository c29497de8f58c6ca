-- ===== src/Store/Valid/Insert.antt =====
-- `INSERT INTO jobs` against the schema, and the ids of new rows.
use mathlib.Core.List.Memᴰ
use remy_cc.Prelude.{
  ℕ, ◌≤◌, ◌<◌, true, ◌≡◌, sym, ap, some, ◌⊎◌, inl, inr, List, [], ◌∷◌, ◌++◌, Memᴰ, arith, find_if,
  count_if, count_if-append, count_if_zero, mem-append_cases, mem-append_left, eq_of_mem_singleton,
}
use remy_cc.Job.{JobRow, ProjectRow}
use remy_cc.Store.Monad.{Store, has_id, has_project_id, next_job_id}
use remy_cc.Store.Valid.{checks, SameKey, IsPending, IsExecuting, Valid}

-- A new id is above all the ids in use.
pub id-lt-next_job_id : (jobs : List JobRow) {r : JobRow} → Memᴰ r jobs → r.id < next_job_id jobs
unfolding next_job_id
id-lt-next_job_id [] m = absurd (Memᴰ.not-nil m)
id-lt-next_job_id (x ∷ xs) {r} m = elim (Memᴰ.cases_cons m) [
  | inl e ↦ let same : r.id ≡ x.id = ap (λ (y : JobRow). y.id) e in omega arith
  | inr m' ↦ omega (arith, id-lt-next_job_id xs m')
]

-- What an inserted row must satisfy.
pub record Fits (s : Store) (r : JobRow) : Type 0 where
  pub new_id : r.id ≡ next_job_id s.jobs
  pub checked : checks r ≡ true
  pub idle : ¬ IsExecuting r
  pub alone : IsPending r → (y : JobRow) → Memᴰ y s.jobs → IsPending y → ¬ SameKey r y
  pub project : (p : ProjectRow) × (find_if (has_project_id r.project_id) s.projects ≡ some p)
  pub successor :
      (i : ℕ) → r.superseded_by_job_id ≡ some i → (t : JobRow) × Memᴰ t s.jobs × (t.id ≡ i)

module _ (s : Store) (r : JobRow) (v : Valid s) (h : Fits s r) where
  abbrev grown : List JobRow
  grown = s.jobs ++ r ∷ []

  grown_cases : {y : JobRow} → Memᴰ y grown → Memᴰ y s.jobs ⊎ (y ≡ r)
  grown_cases m = elim (mem-append_cases s.jobs m) [
    | inl old ↦ inl old
    | inr new ↦ inr (eq_of_mem_singleton new)
  ]

  unused : (i : ℕ) → i ≡ r.id → count_if (has_id i) s.jobs ≡ 0
  unused i e =
      count_if_zero (has_id i) s.jobs (λ y m. ground (arith, id-lt-next_job_id s.jobs m, h.new_id))

  job_ids_grown : (i : ℕ) → count_if (has_id i) grown ≤ 1
  unfolding count_if
  job_ids_grown i =
      ground (arith, count_if-append (has_id i) s.jobs (r ∷ []), v.job_ids i, unused i)

  one_pending_grown :
      (a b : JobRow)
      → Memᴰ a grown
      → Memᴰ b grown
      → IsPending a
      → IsPending b
      → SameKey a b
      → a.id ≡ b.id
  one_pending_grown a b ma mb ha hb (k0, k1, k2) = elim (grown_cases ma) [
    | inl oa ↦ elim (grown_cases mb) [
      | inl ob ↦ v.one_pending a b oa ob ha hb (k0, k1, k2)
      | inr eb ↦
          let key : SameKey b a = (sym k0, sym k1, sym k2) in
          absurd (h.alone (rw eb at hb) a oa ha (rw eb at key))
    ]
    | inr ea ↦ elim (grown_cases mb) [
      | inl ob ↦
          let key : SameKey a b = (k0, k1, k2) in
          absurd (h.alone (rw ea at ha) b ob hb (rw ea at key))
      | inr eb ↦ cc
    ]
  ]

  one_executing_grown :
      (a b : JobRow)
      → Memᴰ a grown
      → Memᴰ b grown
      → IsExecuting a
      → IsExecuting b
      → SameKey a b
      → a.id ≡ b.id
  one_executing_grown a b ma mb ha hb key = elim (grown_cases ma) [
    | inl oa ↦ elim (grown_cases mb) [
      | inl ob ↦ v.one_executing a b oa ob ha hb key
      | inr eb ↦ absurd (h.idle (rw eb at hb))
    ]
    | inr ea ↦ absurd (h.idle (rw ea at ha))
  ]

  job_project_grown :
      (y : JobRow)
      → Memᴰ y grown
      → (p : ProjectRow) × (find_if (has_project_id y.project_id) s.projects ≡ some p)
  job_project_grown y m = elim (grown_cases m) [
    | inl old ↦ v.job_project y old
    | inr e ↦ rw e h.project
  ]

  checked_grown : (y : JobRow) → Memᴰ y grown → checks y ≡ true
  checked_grown y m = elim (grown_cases m) [ inl old ↦ v.checked y old | inr e ↦ rw e h.checked ]

  successor_grown :
      (y : JobRow) (i : ℕ)
      → Memᴰ y grown
      → y.superseded_by_job_id ≡ some i
      → (t : JobRow) × Memᴰ t grown × (t.id ≡ i)
  successor_grown y i m by =
      let (t, mt, e) : (t : JobRow) × Memᴰ t s.jobs × (t.id ≡ i) = elim (grown_cases m) [
        | inl old ↦ v.successor y i old by
        | inr new ↦ h.successor i (rw new at by)
      ] in
      (t, mem-append_left (r ∷ []) mt, e)

  pub insert-Valid : Valid (record s { jobs = s.jobs ++ r ∷ [] })
  insert-Valid = record {
    checked = checked_grown;
    job_ids = job_ids_grown;
    one_pending = one_pending_grown;
    one_executing = one_executing_grown;
    job_project = job_project_grown;
    successor = successor_grown;
    project_ids = v.project_ids;
    project_keys = v.project_keys;
    project_times = v.project_times;
    published_checked = v.published_checked;
  }
