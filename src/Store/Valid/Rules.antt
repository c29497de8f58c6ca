-- ===== src/Store/Valid/Rules.antt =====
-- Rules for programs over the tables: what holds of the state behind `>>=`, a transaction and a load.
use remy_cc.Prelude.{ℕ, some, ◌≡◌, refl, find_if}
use remy_cc.Host.{Host}
use remy_cc.Job.{Result, ok, err, StateError, JobRow, Job}
use remy_cc.Store.Monad.{
  Store, M, has_id, bind_from, settle, return, throw, programs, ◌>>=◌, ◌>>◌, lift, transaction,
}
use remy_cc.Store.Load.{load_job}
use remy_cc.Store.Load.Laws.{Shows, load_job-same, load_job-Shows}

-- The state that a program leaves, whether it fails or not.
pub record Leaves {A : Type 0} (I : Store → Type 0) (m : M A) (s : Store) : Type 0 where
  pub left : I (m s).1

module _ (I : Store → Type 0) where
  bind_from-keeps :
      {A B : Type 0} (r : Result A) (s : Store) (f : A → M B)
      → I s
      → ((a : A) → r ≡ ok a → I (f a s).1)
      → I (bind_from (r, s) f).1
  bind_from-keeps (ok a) s f i h = h a refl
  bind_from-keeps (err e) s f i h = i

  pub bind-keeps :
      {A B : Type 0} (m : M A) (f : A → M B) (s : Store)
      → I (m s).1
      → ((a : A) → (m s).0 ≡ ok a → Leaves I (f a) (m s).1)
      → Leaves I (m >>= f) s
  unfolding programs
  bind-keeps m f s i h = record { left = bind_from-keeps (m s).0 (m s).1 f i (λ a e. (h a e).left) }

  settle-keeps : {A : Type 0} (r : Result A) (s s' : Store) → I s → I s' → I (settle s (r, s')).1
  settle-keeps (ok a) s s' i i' = i'
  settle-keeps (err e) s s' i i' = i

  pub transaction-keeps :
      {A : Type 0} (m : M A) (s : Store) → I s → Leaves I m s → Leaves I (transaction m) s
  unfolding programs
  transaction-keeps m s i h = record { left = settle-keeps (m s).0 s (m s).1 i h.left }

  -- Behind a computation that leaves the tables alone.
  pub lift-keeps :
      {A B : Type 0} (r : Result A) (f : A → M B) (s : Store)
      → I s
      → ((a : A) → r ≡ ok a → Leaves I (f a) s)
      → Leaves I (lift r >>= f) s
  unfolding programs
  lift-keeps r f s i h = record { left = bind_from-keeps r s f i (λ a e. (h a e).left) }

  -- Behind a load.
  pub load-keeps :
      {B : Type 0} (host : Host) (id : ℕ) (f : Job host → M B) (s : Store)
      → I s
      → ((job : Job host) (r : JobRow)
          → find_if (has_id id) s.jobs ≡ some r
          → Shows host r job
          → Leaves I (f job) s)
      → Leaves I (load_job host id >>= f) s
  unfolding programs
  load-keeps host id f s i h =
      let same = load_job-same host id s in
      record {
        left = bind_from-keeps (load_job host id s).0 (load_job host id s).1 f (rw same i) (λ job e.
            let (r, found, shows) = load_job-Shows host id s e in
            rw same (h job r found shows).left);
      }

  pub only_load-keeps : (host : Host) (id : ℕ) (s : Store) → I s → Leaves I (load_job host id) s
  only_load-keeps host id s i = record { left = rw (load_job-same host id s) i }

  pub return-keeps : {A : Type 0} (a : A) (s : Store) → I s → Leaves I (return a) s
  unfolding programs
  return-keeps a s i = record { left = i }

  pub throw-keeps : {A : Type 0} (e : StateError) (s : Store) → I s → Leaves I (throw {A = A} e) s
  unfolding programs
  throw-keeps e s i = record { left = i }

  -- `m; k`
  pub then-keeps :
      {A B : Type 0} (m : M A) (k : M B) (s : Store)
      → I (m s).1
      → ((a : A) → (m s).0 ≡ ok a → Leaves I k (m s).1)
      → Leaves I (m >> k) s
  unfolding programs
  then-keeps m k s i h = record {
    left = bind_from-keeps (m s).0 (m s).1 (λ _. k) i (λ a e. (h a e).left);
  }
