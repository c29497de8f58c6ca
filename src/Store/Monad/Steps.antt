-- ===== src/Store/Monad/Steps.antt =====
-- What one step of a program does, and what a successful program went through.
use remy_cc.Prelude.{
  ℕ, Bool, Option, List, [], ◌∷◌, ◌++◌, ◌≡◌, refl, find_if, select_if, count_if, update_if, arith,
  arith,
}
use remy_cc.Job.{Result, ok, err, StateError, JobRow, ProjectRow}
use remy_cc.Store.Monad.{
  Store, M, bind_from, ◌>>=◌, ◌>>◌, return, throw, lift, transaction, query_job, query_jobs,
  query_project, update_jobs, insert_job, next_job_id, programs,
}

-- A program that succeeds went through its parts.
pub record Went {A B : Type 0} (m : M A) (f : A → M B) (s : Store) (b : B) : Type 0 where
  pub middle : A
  pub first : (m s).0 ≡ ok middle
  pub second : (f middle (m s).1).0 ≡ ok b
  pub after : ((m >>= f) s).1 ≡ (f middle (m s).1).1

bind_from-ok :
    {A B : Type 0} (r : Result A) (s : Store) (f : A → M B) {b : B}
    → (bind_from (r, s) f).0 ≡ ok b
    → (a : A) × (r ≡ ok a) × ((f a s).0 ≡ ok b) × ((bind_from (r, s) f).1 ≡ (f a s).1)
bind_from-ok (ok a) s f h = (a, refl, h, refl)
bind_from-ok (err e) s f h = cc

pub bind-ok :
    {A B : Type 0} (m : M A) (f : A → M B) (s : Store) {b : B}
    → ((m >>= f) s).0 ≡ ok b
    → Went m f s b
unfolding programs
bind-ok m f s h =
    let (a, e, h', e') = bind_from-ok (m s).0 (m s).1 f h in
    record { middle = a; first = e; second = h'; after = e' }

pub then-ok :
    {A B : Type 0} (m : M A) (k : M B) (s : Store) {b : B}
    → ((m >> k) s).0 ≡ ok b
    → ((k (m s).1).0 ≡ ok b) × (((m >> k) s).1 ≡ (k (m s).1).1)
unfolding programs
then-ok m k s h = let (a, e, h', e') = bind_from-ok (m s).0 (m s).1 (λ _. k) h in (h', e')

module _ {B : Type 0} (s : Store) where
  pub query_project-bind :
      (p : ProjectRow → Bool) (f : Option ProjectRow → M B)
      → (query_project p >>= f) s ≡ f (find_if p s.projects) s
  unfolding programs
  query_project-bind p f = refl

  pub query_job-bind :
      (p : JobRow → Bool) (f : Option JobRow → M B) → (query_job p >>= f) s ≡ f (find_if p s.jobs) s
  unfolding programs
  query_job-bind p f = refl

  pub query_jobs-bind :
      (p : JobRow → Bool) (f : List JobRow → M B)
      → (query_jobs p >>= f) s ≡ f (select_if p s.jobs) s
  unfolding programs
  query_jobs-bind p f = refl

  pub update_jobs-bind :
      (p : JobRow → Bool) (g : JobRow → JobRow) (f : ℕ → M B)
      → (update_jobs p g >>= f) s ≡ f (count_if p s.jobs) (record s { jobs = update_if p g s.jobs })
  unfolding programs
  update_jobs-bind p g f = refl

  pub update_jobs-then :
      (p : JobRow → Bool) (g : JobRow → JobRow) (k : M B)
      → (update_jobs p g >> k) s ≡ k (record s { jobs = update_if p g s.jobs })
  unfolding programs
  update_jobs-then p g k = refl

  pub insert_job-bind :
      (row : ℕ → JobRow) (f : ℕ → M B)
      → (insert_job row >>= f) s
        ≡ f (next_job_id s.jobs) (record s { jobs = s.jobs ++ row (next_job_id s.jobs) ∷ [] })
  unfolding programs
  insert_job-bind row f = refl

pub bind-run :
    {A B : Type 0} (m : M A) (f : A → M B) (s : Store) {a : A} {s' : Store}
    → m s ≡ (ok a, s')
    → (m >>= f) s ≡ f a s'
unfolding programs
bind-run m f s e = rw e

pub lift-run : {A B : Type 0} (a : A) (f : A → M B) (s : Store) → (lift (ok a) >>= f) s ≡ f a s
unfolding programs
lift-run a f s = refl

pub transaction-run :
    {A : Type 0} (m : M A) (s : Store) {a : A} {s' : Store}
    → m s ≡ (ok a, s')
    → transaction m s ≡ (ok a, s')
unfolding programs
transaction-run m s e = rw e

pub return-ok :
    {A : Type 0} (a : A) (s : Store) {b : A}
    → (return a s).0 ≡ ok b
    → (a ≡ b) × ((return a s).1 ≡ s)
unfolding programs
return-ok a s h = (ground arith, refl)

pub throw-not_ok :
    {A : Type 0} (e : StateError) (s : Store) {a : A} → ¬ ((throw {A = A} e s).0 ≡ ok a)
unfolding programs
throw-not_ok e s h = cc

-- A run from its two halves.
pub run_of :
    {A : Type 0} (m : M A) (s : Store) {r : Result A} {t : Store}
    → (m s).0 ≡ r
    → (m s).1 ≡ t
    → m s ≡ (r, t)
run_of m s p q = λ i. (p i, q i)

pub return-run : {A : Type 0} (a : A) (s : Store) → return a s ≡ (ok a, s)
unfolding programs
return-run a s = refl
