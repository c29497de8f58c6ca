-- ===== src/Store/Valid/Update.antt =====
-- `UPDATE jobs` against the schema: what a statement must respect for the tables to stay valid.
use remy_cc.Prelude.{
  ℕ, Bool, true, false, ◌≡◌, refl, sym, ◌∙◌, ap, some, ◌⊎◌, inl, inr, Memᴰ, Bool-cases,
  if◌then◌else◌, update_if, mem-update_if_cases, mem-update_if, count_if-update, ◌==◌, List,
  find_if, subst,
}
use remy_cc.Job.{JobRow, ProjectRow}
use remy_cc.Store.Monad.{Store, has_id, has_project_id}
use remy_cc.Store.Valid.{checks, SameKey, IsPending, IsExecuting, Valid}

-- The columns that no statement writes.
pub record KeepsKeys (f : JobRow → JobRow) : Type 0 where
  pub keeps : (r : JobRow) → ((f r).id ≡ r.id) × SameKey (f r) r

-- At most one row is pending (or executing) among those of a key, so a row may become so only
-- where no other row of its key is.
abbrev pub Alone : (JobRow → Type 0) → Store → (JobRow → Bool) → (JobRow → JobRow) → Type 0
Alone P s p f =
    (x y : JobRow)
    → Memᴰ x s.jobs
    → Memᴰ y s.jobs
    → p x ≡ true
    → P (f x)
    → ((p y ≡ false) × P y) ⊎ ((p y ≡ true) × P (f y))
    → SameKey x y
    → x.id ≡ y.id

pub record Respects (s : Store) (p : JobRow → Bool) (f : JobRow → JobRow) : Type 0 where
  pub checked : (r : JobRow) → Memᴰ r s.jobs → p r ≡ true → checks (f r) ≡ true
  pub one_pending : Alone IsPending s p f
  pub one_executing : Alone IsExecuting s p f
  pub successor :
      (r : JobRow) (i : ℕ)
      → Memᴰ r s.jobs
      → p r ≡ true
      → (f r).superseded_by_job_id ≡ some i
      → (t : JobRow) × Memᴰ t s.jobs × (t.id ≡ i)

module _ (s : Store) (p : JobRow → Bool) (f : JobRow → JobRow) (k : KeepsKeys f) where
  abbrev step : JobRow → JobRow
  step x = if p x then f x else x

  step_keys : (x : JobRow) → ((step x).id ≡ x.id) × SameKey (step x) x
  step_keys x = elim (Bool-cases (p x)) [
    | inl t ↦ rw t (k.keeps x)
    | inr t ↦ rw t (refl, (refl, refl, refl))
  ]

  step_id : (x : JobRow) → (step x).id ≡ x.id
  step_id x = (step_keys x).0

  step-SameKey : (x y : JobRow) → SameKey (step x) (step y) → SameKey x y
  step-SameKey x y (a, b, c) =
      let (ax, bx, cx) = (step_keys x).1 in
      let (ay, by, cy) = (step_keys y).1 in (sym ax ∙ a ∙ ay, sym bx ∙ b ∙ by, sym cx ∙ c ∙ cy)

  SameKey-sym : (x y : JobRow) → SameKey x y → SameKey y x
  SameKey-sym x y (a, b, c) = (sym a, sym b, sym c)

  -- One of the two indexes, for rows x and y before the statement.
  Alone-pair :
      (P : JobRow → Type 0)
      → ((a b : JobRow) → Memᴰ a s.jobs → Memᴰ b s.jobs → P a → P b → SameKey a b → a.id ≡ b.id)
      → Alone P s p f
      → (x y : JobRow) → Memᴰ x s.jobs
      → Memᴰ y s.jobs
      → P (step x)
      → P (step y)
      → SameKey x y
      → x.id ≡ y.id
  Alone-pair P old new x y mx my hx hy key = elim (Bool-cases (p x)) [
    | inl px ↦ elim (Bool-cases (p y)) [
      | inl py ↦ new x y mx my px (rw px at hx) (inr (py, rw py at hy)) key
      | inr py ↦ new x y mx my px (rw px at hx) (inl (py, rw py at hy)) key
    ]
    | inr px ↦ elim (Bool-cases (p y)) [
      | inl py ↦ sym (new y x my mx py (rw py at hy) (inl (px, rw px at hx)) (SameKey-sym x y key))
      | inr py ↦ old x y mx my (rw px at hx) (rw py at hy) key
    ]
  ]

  Alone-after :
      (P : JobRow → Type 0)
      → ((a b : JobRow) → Memᴰ a s.jobs → Memᴰ b s.jobs → P a → P b → SameKey a b → a.id ≡ b.id)
      → Alone P s p f
      → (a b : JobRow) → Memᴰ a (update_if p f s.jobs)
      → Memᴰ b (update_if p f s.jobs)
      → P a
      → P b
      → SameKey a b
      → a.id ≡ b.id
  Alone-after P old new a b ma mb ha hb key =
      let (x, mx, ex) = mem-update_if_cases p f s.jobs ma in
      let (y, my, ey) = mem-update_if_cases p f s.jobs mb in
      let key' : SameKey x y = step-SameKey x y (rw (ex, ey) at key) in
      let same = Alone-pair P old new x y mx my (rw ex at ha) (rw ey at hb) key' in
      ap (λ (r : JobRow). r.id) ex
      ∙ step_id x
      ∙ same
      ∙ sym (step_id y)
      ∙ ap (λ (r : JobRow). r.id) (sym ey)

  has_id-step : (i : ℕ) (x : JobRow) → has_id i (f x) ≡ has_id i x
  has_id-step i x = ap (λ (n : ℕ). n == i) (k.keeps x).0

  checked_after :
      Valid s → Respects s p f → (r : JobRow) → Memᴰ r (update_if p f s.jobs) → checks r ≡ true
  checked_after v h r m =
      let (x, mx, e) = mem-update_if_cases p f s.jobs m in
      elim (Bool-cases (p x)) [
        | inl t ↦ rw (e, t) (h.checked x mx t)
        | inr t ↦ rw (e, t) (v.checked x mx)
      ]

  ProjectOf : ℕ → Type 0
  ProjectOf i = (q : ProjectRow) × (find_if (has_project_id i) s.projects ≡ some q)

  job_project_after :
      Valid s → (r : JobRow) → Memᴰ r (update_if p f s.jobs) → ProjectOf r.project_id
  unfolding ProjectOf
  job_project_after v r m =
      let (x, mx, e) = mem-update_if_cases p f s.jobs m in
      subst ProjectOf (sym (ap (λ (y : JobRow). y.project_id) e ∙ (step_keys x).1.0))
        (v.job_project x mx)

  HasRow : List JobRow → ℕ → Type 0
  HasRow jobs i = (t : JobRow) × Memᴰ t jobs × (t.id ≡ i)

  -- The row that a row's successor names is still there.
  HasRow-after : (i : ℕ) → HasRow s.jobs i → HasRow (update_if p f s.jobs) i
  unfolding HasRow
  HasRow-after i (t, m, e) = (step t, mem-update_if p f s.jobs m, step_id t ∙ e)

  successor_after :
      Valid s
      → Respects s p f
      → (r : JobRow) (i : ℕ) → Memᴰ r (update_if p f s.jobs)
      → r.superseded_by_job_id ≡ some i
      → HasRow (update_if p f s.jobs) i
  unfolding HasRow
  successor_after v h r i m by =
      let (x, mx, e) = mem-update_if_cases p f s.jobs m in
      HasRow-after i (elim (Bool-cases (p x)) [
        | inl t ↦ h.successor x i mx t (rw (e, t) at by)
        | inr t ↦ v.successor x i mx (rw (e, t) at by)
      ])

  pub update-Valid : Valid s → Respects s p f → Valid (record s { jobs = update_if p f s.jobs })
  unfolding HasRow ProjectOf
  update-Valid v h = record {
    checked = checked_after v h;
    job_ids = λ i. rw (count_if-update (has_id i) p f (has_id-step i) s.jobs) (v.job_ids i);
    one_pending = Alone-after IsPending v.one_pending h.one_pending;
    one_executing = Alone-after IsExecuting v.one_executing h.one_executing;
    job_project = job_project_after v;
    successor = successor_after v h;
    project_ids = v.project_ids;
    project_keys = v.project_keys;
    project_times = v.project_times;
    published_checked = v.published_checked;
  }

-- A statement that keeps to one id leaves no pair of updated rows to look at.
pub Alone-one :
    (P : JobRow → Type 0) (s : Store) (p : JobRow → Bool) (f : JobRow → JobRow) (j : ℕ)
    → ((r : JobRow) → p r ≡ true → r.id ≡ j)
    → ((x y : JobRow)
        → Memᴰ x s.jobs
        → Memᴰ y s.jobs
        → p x ≡ true
        → P (f x)
        → P y
        → SameKey x y
        → x.id ≡ y.id)
    → Alone P s p f
Alone-one P s p f j one h x y mx my px hx (inl (_, hy)) key = h x y mx my px hx hy key
Alone-one P s p f j one h x y mx my px hx (inr (py, _)) key = one x px ∙ sym (one y py)
