-- ===== src/Store/Claim/Order.antt =====
-- The order of the queue (remy-cc/src/state.rs, the `ORDER BY` of `claim_next_pending`).
use remy_cc.Prelude.{
  ◌<◌, ◌≤◌, ◌⊎◌, ◌↔◌, ltb, ==_refl, text_eq_refl, text_eq_iff, any_if-false, any_if-none, IsStrict,
  Bool, true, false, ◌≡◌, refl, sym, Option, none, some, inl, inr, List, [], ◌∷◌, Memᴰ, arith,
  Option-cases, Bool-cases, mem-cons_cases, not-mem-nil, subst, select_if, mem-select_if,
}
use remy_cc.Job.{
  JobRow, priority_db, pending, running, cancel_requested, job_type_eq_refl, job_type_eq→eq,
  status_eq→eq, status_eq,
}
use remy_cc.Store.Claim.{runs_before, first_by, locks, is_claimable, next_claim}

pub runs_before-IsStrict : IsStrict runs_before
unfolding runs_before
runs_before-IsStrict = record {
  irrefl = λ a. ground arith;
  asym = λ a b h. ground arith;
  trans = λ a b c h k. ground arith;
}

pub mem-first_by :
    (before : JobRow → JobRow → Bool) (rs : List JobRow) {r : JobRow}
    → first_by before rs ≡ some r
    → Memᴰ r rs
unfolding first_by
mem-first_by before [] h = cc
mem-first_by before (x ∷ xs) {r} h = elim (Option-cases (first_by before xs)) [
  | inl e ↦ let same : x ≡ r = cc (rw (e, first_by) at h) in Memᴰ.head (sym same)
  | inr (best, e) ↦ elim (Bool-cases (before best x)) [
    | inl t ↦
        let same : best ≡ r = ground (arith, h) in
        Memᴰ.tail (subst (λ z. Memᴰ z xs) same (mem-first_by before xs e))
    | inr t ↦ let same : x ≡ r = ground (arith, h) in Memᴰ.head (sym same)
  ]
]

pub first_by-none :
    (before : JobRow → JobRow → Bool) (rs : List JobRow) → first_by before rs ≡ none → rs ≡ []
unfolding first_by
first_by-none before [] h = refl
first_by-none before (r ∷ rs) h = elim (Option-cases (first_by before rs)) [
  | inl e ↦ cc (rw e at h)
  | inr (b, e) ↦ cc (rw e at h)
]

module _ (before : JobRow → JobRow → Bool) (strict : IsStrict before) where
  -- No row comes before the first one.
  pub first_by-first :
      (rs : List JobRow) {r : JobRow}
      → first_by before rs ≡ some r
      → (x : JobRow) → Memᴰ x rs
      → before x r ≡ false
  unfolding first_by
  first_by-first [] h x m = cc
  first_by-first (y ∷ ys) {r} h x m = elim (Option-cases (first_by before ys)) [
    | inl e ↦
        let alone : y ≡ r = cc (rw (e, first_by) at h) in
        elim (mem-cons_cases m) [
          | inl ex ↦ rw (ex, alone) (strict.irrefl r)
          | inr mx ↦ absurd (not-mem-nil (rw (first_by-none before ys e) at mx))
        ]
    | inr (best, e) ↦ elim (Bool-cases (before best y)) [
      | inl t ↦
          let same : best ≡ r = ground (arith, h) in
          elim (mem-cons_cases m) [
            | inl ex ↦ rw ex (rw same at (strict.asym best y t))
            | inr mx ↦ subst (λ z. before x z ≡ false) same (first_by-first ys e x mx)
          ]
      | inr t ↦
          let same : y ≡ r = ground (arith, h) in
          elim (mem-cons_cases m) [
            | inl ex ↦ rw (ex, same) (strict.irrefl r)
            | inr mx ↦ rw same at (strict.trans x best y (first_by-first ys e x mx) t)
          ]
    ]
  ]

-- What the `WHERE` clause says of a row.
pub record Claimable (jobs : List JobRow) (r : JobRow) : Type 0 where
  pub member : Memᴰ r jobs
  pub waiting : r.status ≡ pending
  pub unlocked :
      (y : JobRow)
      → Memᴰ y jobs
      → (y.status ≡ running) ⊎ (y.status ≡ cancel_requested)
      → ¬ (
          (r.project_id ≡ y.project_id) × (r.job_type ≡ y.job_type) × (r.dedupe_key ≡ y.dedupe_key))

-- `r` is of a higher priority than `x`, or of the same and older, or also as old and of no larger id.
abbrev pub Precedes : JobRow → JobRow → Type 0
Precedes r x =
    (priority_db x.priority < priority_db r.priority)
    ⊎ ((priority_db x.priority ≡ priority_db r.priority)
        × ((r.created_at < x.created_at) ⊎ ((r.created_at ≡ x.created_at) × (r.id ≤ x.id))))

Precedes-of : (r x : JobRow) → runs_before x r ≡ false → Precedes r x
unfolding runs_before
Precedes-of r x h = elim (Bool-cases (ltb (priority_db x.priority) (priority_db r.priority))) [
  | inl t ↦ inl (ground arith)
  | inr f ↦ inr (
    ground arith,
    elim (Bool-cases (ltb r.created_at x.created_at)) [
      | inl t ↦ inl (ground arith)
      | inr g ↦ inr (ground arith, ground arith)
    ],
  )
]

locks_of :
    (r y : JobRow)
    → (y.status ≡ running) ⊎ (y.status ≡ cancel_requested)
    → (r.project_id ≡ y.project_id) × (r.job_type ≡ y.job_type) × (r.dedupe_key ≡ y.dedupe_key)
    → locks r y ≡ true
locks_of r y (inl busy) (k0, k1, k2) =
    rw (busy, k0, k1, k2)
      (rw (==_refl y.project_id, job_type_eq_refl y.job_type, text_eq_refl y.dedupe_key) refl)
locks_of r y (inr busy) (k0, k1, k2) =
    rw (busy, k0, k1, k2)
      (rw (==_refl y.project_id, job_type_eq_refl y.job_type, text_eq_refl y.dedupe_key) refl)

locks-keys :
    (r y : JobRow)
    → locks r y ≡ true
    → ((y.status ≡ running) ⊎ (y.status ≡ cancel_requested))
      × (r.project_id ≡ y.project_id)
      × (r.job_type ≡ y.job_type)
      × (r.dedupe_key ≡ y.dedupe_key)
locks-keys r y h = (
  elim (Bool-cases (status_eq y.status running)) [
    | inl t ↦ inl (status_eq→eq y.status running t)
    | inr f ↦ inr (status_eq→eq y.status cancel_requested (ground arith))
  ],
  ground arith,
  sym (job_type_eq→eq y.job_type r.job_type (ground arith)),
  sym ((text_eq_iff y.dedupe_key r.dedupe_key).0 (ground arith)),
)

pub is_claimable_iff :
    (jobs : List JobRow) (r : JobRow)
    → Memᴰ r jobs
    → (is_claimable jobs r ≡ true) ↔ Claimable jobs r
unfolding is_claimable
is_claimable_iff jobs r m = (
  λ h. record {
    member = m;
    waiting = status_eq→eq r.status pending (ground arith);
    unlocked = λ y my busy key.
        let locked = locks_of r y busy key in
        let free = any_if-false (locks r) jobs (ground arith) y my in cc;
  },
  λ c.
      rw
        (
          c.waiting,
          any_if-none (locks r) jobs (λ y my. elim (Bool-cases (locks r y)) [
            | inl t ↦
                let (busy, k0, k1, k2) = locks-keys r y t in
                absurd (c.unlocked y my busy (k0, k1, k2))
            | inr f ↦ f
          ]),
        )
        refl,
)

-- The answer of the query: none if no row is claimable, and otherwise a claimable row that precedes
-- every claimable row.
abbrev pub NextIs : List JobRow → Option JobRow → Type 0
NextIs jobs none = (x : JobRow) → ¬ Claimable jobs x
NextIs jobs (some r) = Claimable jobs r × ((x : JobRow) → Claimable jobs x → Precedes r x)

next_claim-cases :
    (jobs : List JobRow) (picked : Option JobRow) → next_claim jobs ≡ picked → NextIs jobs picked
next_claim-cases jobs none e = λ x c.
    let empty = first_by-none runs_before (select_if (is_claimable jobs) jobs) e in
    not-mem-nil (
      rw empty at (
        (mem-select_if (is_claimable jobs) jobs x).1
          (c.member, (is_claimable_iff jobs x c.member).1 c)))
next_claim-cases jobs (some r) e =
    let (m, t) = (mem-select_if (is_claimable jobs) jobs r).0 (mem-first_by runs_before _ e) in
    (
      (is_claimable_iff jobs r m).0 t,
      λ x c. Precedes-of r x (
          first_by-first runs_before runs_before-IsStrict _ e x (
            (mem-select_if (is_claimable jobs) jobs x).1
              (c.member, (is_claimable_iff jobs x c.member).1 c))),
    )

-- The query of `claim_next_pending` picks, among the pending rows whose key no running or cancelling row
-- has, one of the highest priority, of those one of the oldest, and of those one of the lowest id; it
-- picks none only if there is no such row.
pub next_claim_lem : (jobs : List JobRow) → NextIs jobs (next_claim jobs)
next_claim_lem jobs = next_claim-cases jobs (next_claim jobs) refl
