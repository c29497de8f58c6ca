-- ===== src/Store/Valid/Projects.antt =====
-- `submit` registers its project: the table `projects` stays valid and the jobs keep theirs.
use mathlib.Core.List.Memᴰ
use remy_cc.Prelude.{
  ℕ, ◌≤◌, ◌<◌, true, ◌≡◌, ◌∙◌, refl, ap, Option, none, some, inl, inr, List, [], ◌∷◌, ◌++◌, Memᴰ,
  arith, Text, text_eq, text_eq_iff, ltb, if◌then◌else◌, Bool-cases, find_if, find_if-none,
  mem-find_if, find_if-append, find_if-update, count_if, count_if-append, count_if_zero,
  count_if-update, unique_of_count, update_if, mem-update_if_cases, mem-append_cases,
  eq_of_mem_singleton,
}
use remy_cc.Job.{Result, ok, ProjectRow}
use remy_cc.Store.Monad.{Store, ◌>>=◌, query_project, has_project_id, next_project_id, programs}
use remy_cc.Store.Submit.{row_id, upsert_project, has_key, upsert_row}
use remy_cc.Store.Monad.Steps.{query_project-bind, then-ok}
use remy_cc.Store.Valid.{Valid}
use remy_cc.Store.Valid.Rules.{then-keeps}

id-lt-next_project_id :
    (ps : List ProjectRow) {p : ProjectRow} → Memᴰ p ps → p.id < next_project_id ps
unfolding next_project_id
id-lt-next_project_id [] m = absurd (Memᴰ.not-nil m)
id-lt-next_project_id (x ∷ xs) {p} m = elim (Memᴰ.cases_cons m) [
  | inl e ↦ let same : p.id ≡ x.id = ap (λ (y : ProjectRow). y.id) e in omega arith
  | inr m' ↦ omega (arith, id-lt-next_project_id xs m')
]

module _ (s : Store) (v : Valid s) (key path db : Text) (now : ℕ) where
  abbrev fresh : ProjectRow
  fresh = record {
    id = next_project_id s.projects;
    project_key = key;
    project_path = path;
    db_path = db;
    created_at = now;
    last_seen_at = now;
  }

  fresh-Valid :
      find_if (has_key key) s.projects ≡ none
      → Valid (record s { projects = s.projects ++ fresh ∷ [] })
  unfolding count_if
  fresh-Valid absent = record {
    checked = v.checked;
    job_ids = v.job_ids;
    one_pending = v.one_pending;
    one_executing = v.one_executing;
    job_project = λ r m.
        let (p, found) = v.job_project r m in (p, find_if-append _ s.projects (fresh ∷ []) found);
    successor = v.successor;
    project_ids = λ i. ground (
      arith,
      count_if-append (has_project_id i) s.projects (fresh ∷ []),
      v.project_ids i,
      unused_id i,
    );
    project_keys = λ k. ground (
      arith,
      count_if-append (has_key k) s.projects (fresh ∷ []),
      v.project_keys k,
      unused_key k,
    );
    published_checked = v.published_checked;
    project_times = λ p m. elim (mem-append_cases s.projects m) [
      | inl old ↦ v.project_times p old
      | inr new ↦ rw (eq_of_mem_singleton new) (omega arith)
    ];
  }
    where
      unused_id : (i : ℕ) → i ≡ fresh.id → count_if (has_project_id i) s.projects ≡ 0
      unused_id i e =
          count_if_zero (has_project_id i) s.projects
            (λ y m. ground (arith, id-lt-next_project_id s.projects m))

      unused_key : (k : Text) → text_eq key k ≡ true → count_if (has_key k) s.projects ≡ 0
      unused_key k e =
          let same = (text_eq_iff key k).0 e in
          count_if_zero (has_key k) s.projects
            (λ y m. rw (← same) (find_if-none (has_key key) s.projects absent y m))

  abbrev seen : ProjectRow → ProjectRow
  seen q = record q { project_path = path; db_path = db; last_seen_at = now }

  seen-Valid :
      (p : ProjectRow)
      → find_if (has_key key) s.projects ≡ some p
      → p.created_at ≤ now
      → Valid (record s { projects = update_if (has_key key) seen s.projects })
  seen-Valid p found later =
      let (mp, kp) = mem-find_if (has_key key) s.projects found in
      record {
        checked = v.checked;
        job_ids = v.job_ids;
        one_pending = v.one_pending;
        one_executing = v.one_executing;
        job_project = λ r m.
            let (q, e) = v.job_project r m in
            (
              if has_key key q then seen q else q,
              rw
                  (find_if-update (has_project_id r.project_id) (has_key key) seen (λ _. refl)
                    s.projects)
                  (rw e),
            );
        successor = v.successor;
        project_ids = λ i.
            rw (count_if-update (has_project_id i) (has_key key) seen (λ _. refl) s.projects)
              (v.project_ids i);
        project_keys = λ k.
            rw (count_if-update (has_key k) (has_key key) seen (λ _. refl) s.projects)
              (v.project_keys k);
        published_checked = v.published_checked;
        project_times = λ q m.
            let (x, mx, e) = mem-update_if_cases (has_key key) seen s.projects m in
            elim (Bool-cases (has_key key x)) [
              | inl t ↦
                  let same =
                    unique_of_count (has_key key) s.projects (v.project_keys key) mx mp t kp in
                  rw (e, t) (rw same later)
              | inr t ↦ rw (e, t) (v.project_times x mx)
            ];
      }

  upsert_row-Valid :
      (old : Option ProjectRow)
      → find_if (has_key key) s.projects ≡ old
      → Valid (upsert_row key path db now old s).1
  unfolding upsert_row programs
  upsert_row-Valid none e = fresh-Valid e
  upsert_row-Valid (some p) e = elim (Bool-cases (ltb now p.created_at)) [
    | inl t ↦ rw t v
    | inr t ↦ rw t (seen-Valid p e (ground arith))
  ]

row_id-ok :
    (q : Option ProjectRow) (s : Store) {i : ℕ}
    → (row_id q s).0 ≡ ok i
    → (p : ProjectRow) × (q ≡ some p) × (p.id ≡ i) × ((row_id q s).1 ≡ s)
unfolding row_id programs
row_id-ok none s h = cc
row_id-ok (some p) s h = (p, refl, cc, refl)

upsert_row-jobs :
    (key path db : Text) (now : ℕ) (old : Option ProjectRow) (s : Store)
    → (upsert_row key path db now old s).1.jobs ≡ s.jobs
unfolding upsert_row programs
upsert_row-jobs key path db now none s = refl
upsert_row-jobs key path db now (some p) s = elim (Bool-cases (ltb now p.created_at)) [
  | inl t ↦ rw t
  | inr t ↦ rw t
]

row_id-same : (q : Option ProjectRow) (s : Store) → (row_id q s).1 ≡ s
unfolding row_id programs
row_id-same none s = refl
row_id-same (some p) s = refl

module _ (key path db : Text) (now : ℕ) (s : Store) where
  abbrev registered : Store
  registered = (upsert_row key path db now (find_if (has_key key) s.projects) s).1

  -- Where the project is registered: its row is found under its key, and its id is returned.
  pub upsert_project-ok :
      {i : ℕ}
      → (upsert_project key path db now s).0 ≡ ok i
      → ((p : ProjectRow) × (find_if (has_key key) (upsert_project key path db now s).1.projects
            ≡ some p)
          × (p.id ≡ i))
        × ((upsert_project key path db now s).1.jobs ≡ s.jobs)
  unfolding upsert_project
  upsert_project-ok h =
      let upsert = upsert_row key path db now (find_if (has_key key) s.projects) in
      let whole = rw query_project-bind at h in
      let (h', after) = then-ok upsert _ s whole in
      let (p, found, id, same) = row_id-ok _ registered (rw query_project-bind at h') in
      let same_end =
        after ∙ ap (λ (x : Result ℕ × Store). x.1) (query_project-bind registered _ _) ∙ same in
      rw query_project-bind (
        (p, rw same_end found, id),
        rw same_end (upsert_row-jobs key path db now (find_if (has_key key) s.projects) s),
      )

  pub upsert_project-Valid : Valid s → Valid (upsert_project key path db now s).1
  unfolding upsert_project
  upsert_project-Valid v =
      let v' = upsert_row-Valid s v key path db now (find_if (has_key key) s.projects) refl in
      rw query_project-bind
        (then-keeps Valid _ _ s v'
          (λ _ _. record { left = rw (query_project-bind registered, row_id-same) v' })).left

  read_id-same : (t : Store) → ((query_project (has_key key) >>= row_id) t).1 ≡ t
  unfolding programs
  read_id-same t = row_id-same _ t

  pub upsert_project-jobs : (upsert_project key path db now s).1.jobs ≡ s.jobs
  unfolding upsert_project
  upsert_project-jobs =
      let same = upsert_row-jobs key path db now (find_if (has_key key) s.projects) s in
      rw query_project-bind
        (then-keeps (λ t. t.jobs ≡ s.jobs) _ _ s same
          (λ _ _. record {
            left = ap (λ (t : Store). t.jobs) (read_id-same registered) ∙ same;
          })).left
