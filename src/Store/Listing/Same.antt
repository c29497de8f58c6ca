-- ===== src/Store/Listing/Same.antt =====
-- Listing jobs changes nothing (remy-cc/src/state.rs, `list` and `recent_failed`).
use remy_cc.Prelude.{ℕ, Option, Text, List, [], ◌∷◌}
use remy_cc.Host.{Host}
use remy_cc.Job.{JobStatus, JobRow, Job}
use remy_cc.Store.Monad.{Store, M, ◌>>=◌}
use remy_cc.Store.Load.{load_job}
use remy_cc.Store.Load.Laws.{load_job-same}
use remy_cc.Store.Valid.Rules.{Leaves, bind-keeps, lift-keeps, return-keeps}
use remy_cc.Store.Listing.{ListJobs, load_all, query_list, list, failures, recent_failed}

module _ (I : Store → Type 0) (host : Host) (s : Store) (i : I s) where
  loaded : (id : ℕ) → I (load_job host id s).1
  loaded id = rw (load_job-same host id s) i

  -- A program behind a load that keeps the tables.
  pub load-then :
      {B : Type 0} (id : ℕ) (f : Job host → M B)
      → ((job : Job host) → Leaves I (f job) s)
      → Leaves I (load_job host id >>= f) s
  load-then id f h =
      bind-keeps I (load_job host id) f s (loaded id)
        (λ job e. rw (load_job-same host id s) (h job))

  load_all-keeps : (rows : List JobRow) → Leaves I (load_all host rows) s
  unfolding load_all
  load_all-keeps [] = return-keeps I _ s i
  load_all-keeps (r ∷ rs) = load-then r.id _ (λ job.
      bind-keeps I _ _ s (load_all-keeps rs).left
        (λ jobs e. return-keeps I _ _ (load_all-keeps rs).left))

  query_list-same :
      (key file : Option Text) (st : Option JobStatus) (job_type : Option Text) (limit : ℕ)
      → I (query_list key file st job_type limit s).1
  unfolding query_list
  query_list-same key file st job_type limit = i

  query_list-Leaves :
      (key file : Option Text) (st : Option JobStatus) (job_type : Option Text) (limit : ℕ)
      → Leaves I (query_list key file st job_type limit >>= load_all host) s
  unfolding query_list
  query_list-Leaves key file st job_type limit =
      bind-keeps I (query_list key file st job_type limit) (load_all host) s
        (query_list-same key file st job_type limit) (λ rows e. load_all-keeps rows)

  list-Leaves : (filter : ListJobs) → Leaves I (list host filter) s
  unfolding list
  list-Leaves filter = lift-keeps I _ _ s i (λ key _. lift-keeps I _ _ s i (λ file _.
      lift-keeps I _ _ s i
        (λ job_type _. query_list-Leaves key file filter.status job_type filter.limit)))

  pub list-keeps : (filter : ListJobs) → I (list host filter s).1
  list-keeps filter = (list-Leaves filter).left

  pub recent_failed-keeps : (limit : ℕ) → I (recent_failed host limit s).1
  unfolding recent_failed
  recent_failed-keeps limit = list-keeps (failures limit)
