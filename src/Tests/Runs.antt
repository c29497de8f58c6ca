-- ===== src/Tests/Runs.antt =====
-- What arrives at the scheduler: two files are submitted, and the first is cancelled and then reported
-- as finished.
use remy_cc.Prelude.{codes, some, none, List, [], ◌∷◌}
use remy_cc.Scheduler.{Turn, Command, submit_job, cancel_job, worker, complete_with, succeeded_with}
use remy_cc.Tests.Demo.{demo, request}

abbrev pub turn : List (Command demo) → Turn demo
turn commands = record {
  arrivals = commands;
  handled_at = some 3;
  dispatched_at = some 4;
  spawn = λ _. none;
}

abbrev pub morning : List (Turn demo)
morning =
    turn (submit_job (request (codes "a.py")) ∷ submit_job (request (codes "b.py")) ∷ [])
    ∷ turn (cancel_job 1 ∷ [])
    ∷ turn []
    ∷ turn (worker (complete_with 1 (succeeded_with (codes "{}"))) ∷ [])
    ∷ []
