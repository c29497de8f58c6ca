-- ===== src/Tests/Instances.antt =====
-- The theorems on the store at concrete inputs.
use remy_cc.Prelude.{false, ◌≡◌, refl, Option, some, none, codes, inl, find_if, pos, ◌↔◌}
use remy_cc.Job.{
  ok, running, cancel_requested, succeeded, failed, interactive, status_from_db, status_db,
  priority_from_db, priority_db, Job,
}
use remy_cc.Store.Monad.{Store, now_millis, has_id}
use remy_cc.Store.Monad.Atomic.{IsAtomic}
use remy_cc.Store.Load.{load_job}
use remy_cc.Store.Load.Laws.{Shows}
use remy_cc.Store.Transition.{cancel, confirm_cancelled}
use remy_cc.Store.Submit.{submit, submit_full_scan, promote, provider_rust}
use remy_cc.Store.Claim.{claim_next_pending, next_claim}
use remy_cc.Store.Claim.Order.{NextIs, next_claim_lem}
use remy_cc.Store.Complete.{complete, update_progress}
use remy_cc.Store.Complete.Payload.{completed_row, Carries, complete_lem}
use remy_cc.Store.Recover.{RecoveryReport, recover}
use remy_cc.Store.Valid.{Valid}
use remy_cc.Store.Valid.Transitions.{cancel-Valid, confirm_cancelled-Valid}
use remy_cc.Store.Valid.Submits.{submit-Valid}
use remy_cc.Store.Valid.FullScans.{submit_full_scan-Valid, promote-Valid}
use remy_cc.Store.Valid.Claims.{claim_next_pending-Valid}
use remy_cc.Store.Valid.Completes.{update_progress-Valid, complete-Valid}
use remy_cc.Store.Valid.RecoverLoops.{Idle, recover-Idle}
use remy_cc.Store.Runs.Changed.{changed_store}
use remy_cc.Store.Runs.Claimed.{claim_effect, Returns, claim_next_pending_lem}
use remy_cc.Store.Rollback.{transactions-IsAtomic}
use remy_cc.Job.Columns.{status_from_db_iff, priority_from_db_iff}
use remy_cc.Prelude.{text_eq}
use remy_cc.Prelude.{Text, true, find_if, update_if}
use remy_cc.Job.{JobRow, full_scan, background}
use remy_cc.Paths.{normalize_source_path, normalize_database_path, normalize_existing_project}
use remy_cc.Store.Monad.{next_job_id, programs}
use remy_cc.Tests.Samples.{waiting_job}
use remy_cc.Store.Load.{parse_json}
use remy_cc.Store.Submit.{SubmitResult, pending_row}
use remy_cc.Store.Submit.Queued.{Queued, submit-Queued}
use remy_cc.Store.Submit.Absorbed.{Scanning, submit_full_scan-Scanning}
use remy_cc.Paths.Source.{IsAccepted, normalize_source_path-IsAccepted}
use remy_cc.Store.Complete.Progress.{Forward, update_progress-Forward}
use remy_cc.Tests.Demo.{demo, demo-RoundTrips, request}
use remy_cc.Tests.Samples.{busy_store, busy-Valid, running_job}

clock_read : now_millis (some 50) ≡ ok 50
unfolding now_millis
clock_read = refl

recover-Idle_example :
    (report : RecoveryReport) × (s' : Store) × (recover (some 50) busy_store ≡ (ok report, s'))
    × Valid s'
    × Idle running s'
    × Idle cancel_requested s'
recover-Idle_example = recover-Idle (some 50) 50 busy_store clock_read busy-Valid

claim_next_pending_lem_example :
    (job : Option (Job demo)) × (claim_next_pending demo (some 50) provider_rust busy_store
      ≡ (ok job, claim_effect demo 50 busy_store busy-Valid (next_claim busy_store.jobs)))
    × Returns demo 50 busy_store busy-Valid (next_claim busy_store.jobs) job
claim_next_pending_lem_example =
    claim_next_pending_lem demo 50 busy_store busy-Valid (some 50) clock_read

running_found : find_if (has_id 1) busy_store.jobs ≡ some running_job
unfolding find_if
running_found = refl

complete_lem_example :
    (job : Job demo) × (complete demo (some 50) 1 succeeded (codes "{}") busy_store
      ≡ (ok job, changed_store busy_store 1 running (completed_row succeeded (codes "{}") 50)))
    × (load_job demo 1
          (changed_store busy_store 1 running (completed_row succeeded (codes "{}") 50))
        ≡ (ok job, changed_store busy_store 1 running (completed_row succeeded (codes "{}") 50)))
    × Shows demo (completed_row succeeded (codes "{}") 50 running_job) job
    × Carries demo succeeded (codes "{}") job
complete_lem_example =
    complete_lem demo demo-RoundTrips (some 50) 50 clock_read busy_store busy-Valid 1 running_job
      running_found refl succeeded (codes "{}") (codes "{}") (inl refl) refl

next_claim_lem_example : NextIs busy_store.jobs (next_claim busy_store.jobs)
next_claim_lem_example = next_claim_lem busy_store.jobs

submit-Valid_example : Valid (submit demo (some 50) (request (codes "b.py")) busy_store).1
submit-Valid_example = submit-Valid demo (some 50) busy_store busy-Valid (request (codes "b.py"))

submit_full_scan-Valid_example : Valid (submit_full_scan demo (some 50) 1 busy_store).1
submit_full_scan-Valid_example = submit_full_scan-Valid demo busy_store busy-Valid (some 50) 1

complete-Valid_example : Valid (complete demo (some 50) 1 failed (codes "{}") busy_store).1
complete-Valid_example = complete-Valid demo busy_store busy-Valid 1 (some 50) failed (codes "{}")

update_progress-Valid_example :
    Valid
      (update_progress demo 1
        (record { current = pos 2; total = pos 3; message = codes "scan" })
        busy_store).1
update_progress-Valid_example =
    update_progress-Valid demo busy_store busy-Valid 1
      (record { current = pos 2; total = pos 3; message = codes "scan" })

cancel-Valid_example : Valid (cancel demo (some 50) 1 busy_store).1
cancel-Valid_example = cancel-Valid demo (some 50) 1 busy_store busy-Valid

confirm_cancelled-Valid_example :
    Valid (confirm_cancelled demo (some 50) 1 (cancel demo (some 50) 1 busy_store).1).1
confirm_cancelled-Valid_example =
    confirm_cancelled-Valid demo (some 50) 1 (cancel demo (some 50) 1 busy_store).1
      cancel-Valid_example

claim_next_pending-Valid_example :
    Valid (claim_next_pending demo (some 50) provider_rust busy_store).1
claim_next_pending-Valid_example =
    claim_next_pending-Valid demo provider_rust busy_store busy-Valid (some 50)

promote-Valid_example : Valid (promote demo 2 interactive busy_store).1
promote-Valid_example = promote-Valid demo busy_store busy-Valid 2 interactive

transactions-IsAtomic_example :
    IsAtomic (submit demo (some 50) (request (codes "b.py"))) busy_store
    × IsAtomic (submit_full_scan demo (some 50) 7) busy_store
    × IsAtomic (cancel demo (some 50) 9) busy_store
    × IsAtomic (confirm_cancelled demo (some 50) 9) busy_store
    × IsAtomic (claim_next_pending demo (some 50) (codes "python")) busy_store
    × IsAtomic (complete demo (some 50) 9 succeeded (codes "{}")) busy_store
    × IsAtomic (recover (some 50)) busy_store
transactions-IsAtomic_example =
    transactions-IsAtomic demo (some 50) busy_store (request (codes "b.py")) 7 9 (codes "python")
      succeeded (codes "{}")

status_from_db_iff_example :
    (status_from_db (codes "cancel_requested") ≡ ok cancel_requested)
    ↔ (codes "cancel_requested" ≡ status_db cancel_requested)
status_from_db_iff_example = status_from_db_iff (codes "cancel_requested") cancel_requested

priority_from_db_iff_example : (priority_from_db 1 ≡ ok interactive) ↔ (1 ≡ priority_db interactive)
priority_from_db_iff_example = priority_from_db_iff 1 interactive

abbrev shown : JobRow → Job demo
shown r = record {
  id = r.id;
  project_id = r.project_id;
  project_path = codes "/repo";
  target_db_path = r.target_db_path;
  job_type = r.job_type;
  file_path = r.file_path;
  priority = r.priority;
  provider = r.provider;
  status = r.status;
  progress_current = r.progress_current;
  progress_total = r.progress_total;
  progress_message = r.progress_message;
  result = none;
  error = none;
  created_at = r.created_at;
  started_at = r.started_at;
  finished_at = r.finished_at;
  superseded_by_job_id = r.superseded_by_job_id;
}

abbrev scan_job : SubmitResult demo
scan_job = record {
  job =
      shown (
        pending_row 1 full_scan (codes "/repo/db") (codes ".") background 50 (codes "full_scan") 3);
  created = true;
}

scan_succeeds : (submit_full_scan demo (some 50) 1 busy_store).0 ≡ ok scan_job
unfolding programs submit_full_scan now_millis load_job parse_json find_if update_if next_job_id
    text_eq
scan_succeeds = refl

submit_full_scan-Scanning_example :
    Scanning demo 1 scan_job busy_store (submit_full_scan demo (some 50) 1 busy_store).1
submit_full_scan-Scanning_example =
    submit_full_scan-Scanning demo (some 50) busy_store busy-Valid 1 scan_job scan_succeeds

abbrev reused_job : SubmitResult demo
reused_job = record { job = shown waiting_job; created = false }

submit_succeeds : (submit demo (some 50) (request (codes "b.py")) busy_store).0 ≡ ok reused_job
unfolding programs submit now_millis load_job parse_json find_if update_if next_job_id text_eq
    normalize_source_path normalize_database_path normalize_existing_project
submit_succeeds = refl

submit-Queued_example :
    (project db file : Text) × (normalize_existing_project demo
        (request (codes "b.py")).project_path
      ≡ ok project)
    × (normalize_database_path demo (request (codes "b.py")).db_path ≡ ok db)
    × (normalize_source_path (codes "b.py") ≡ ok file)
    × Queued demo busy_store.jobs project db file interactive reused_job
        (submit demo (some 50) (request (codes "b.py")) busy_store).1
submit-Queued_example =
    submit-Queued demo (some 50) busy_store busy-Valid (request (codes "b.py")) reused_job
      submit_succeeds

path_accepted : normalize_source_path (codes "src//./a.PY") ≡ ok (codes "src/a.PY")
unfolding normalize_source_path text_eq
path_accepted = refl

normalize_source_path-IsAccepted_example : IsAccepted (codes "src/a.PY")
normalize_source_path-IsAccepted_example =
    normalize_source_path-IsAccepted (codes "src//./a.PY") (codes "src/a.PY") path_accepted

update_progress-Forward_example :
    Forward busy_store
      (update_progress demo 1
        (record { current = pos 2; total = pos 3; message = codes "scan" })
        busy_store).1
update_progress-Forward_example =
    update_progress-Forward demo busy_store 1
      (record { current = pos 2; total = pos 3; message = codes "scan" })
