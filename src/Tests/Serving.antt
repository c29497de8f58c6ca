-- ===== src/Tests/Serving.antt =====
-- The theorems on the scheduler and the connections at concrete inputs.
use remy_cc.Prelude.{false, Memᴰ, refl, Option, some, none, codes}
use remy_cc.Store.Transition.{cancel}
use remy_cc.Store.Valid.{Valid}
use remy_cc.Scheduler.{run, flag_cancel, slot_after, settle_complete, succeeded_with, ActiveJob}
use remy_cc.Scheduler.Schema.{at_rest, run-Valid}
use remy_cc.Scheduler.Slot.{SlotState}
use remy_cc.Scheduler.Slot.Cancels.{cancel-SlotState}
use remy_cc.Scheduler.Slot.Settles.{settle_complete-SlotState}
use remy_cc.Scheduler.Work.{IsGood}
use remy_cc.Scheduler.Work.Rounds.{run-IsGood}
use remy_cc.Scheduler.{get_job, no_reply}
use remy_cc.Prelude.{text_eq, List, [], ◌∷◌}
use remy_cc.Protocol.{Envelope, get_request, token_of, business_versions}
use remy_cc.Server.{Session, ready, serve_line}
use remy_cc.Server.Access.{IsAuthorised}
use remy_cc.Server.Dialogue.{Line, carry_out, handle_connection}
use remy_cc.Server.Connection.{Follows, handle_connection-Follows, handle_connection-IsAuthorised}
use remy_cc.Tests.Demo.{demo, empty_store}
use remy_cc.Tests.Samples.{
  empty-Valid, empty-idle, busy_store, busy-Valid, busy-executing, running_job,
}
use remy_cc.Tests.Runs.{morning}

run-IsGood_example : IsGood demo (run demo (some 1) (λ _. none) morning empty_store)
run-IsGood_example = run-IsGood demo (some 1) (λ _. none) morning empty_store empty-Valid empty-idle

run-Valid_example : Valid (at_rest demo (run demo (some 1) (λ _. none) morning busy_store)).store
run-Valid_example = run-Valid demo (some 1) (λ _. none) morning busy_store busy-Valid

abbrev seat : Option ActiveJob
seat = some (record { job_id = 1; cancel = false })

busy-Seated : SlotState seat busy_store
busy-Seated = record { only = busy-executing; row = (running_job, Memᴰ.head refl, refl, refl) }

cancel-SlotState_example :
    SlotState
      (flag_cancel demo 1 (cancel demo (some 50) 1 busy_store).0 seat)
      (cancel demo (some 50) 1 busy_store).1
cancel-SlotState_example = cancel-SlotState demo (some 50) 1 busy_store busy-Valid seat busy-Seated

settle_complete-SlotState_example :
    SlotState
      (slot_after demo 1
        (settle_complete demo (some 50) 1 (succeeded_with (codes "{}")) busy_store).0
        seat)
      (settle_complete demo (some 50) 1 (succeeded_with (codes "{}")) busy_store).1
settle_complete-SlotState_example =
    settle_complete-SlotState demo (some 50) 1 busy_store busy-Valid seat busy-Seated
      (succeeded_with (codes "{}"))

abbrev session : Session
session = record {
  token = codes "t";
  daemon_version = codes "1";
  scanner = record { desired = codes "rust"; published = none; diagnostic = none };
  ui_status = none;
  ui_open = λ mode target. ready (codes "http://localhost") (codes "u");
}

abbrev envelope : Envelope
envelope = record { protocol_version = 6; state_schema_version = 2; token = codes "t" }

abbrev dialogue : List (Line demo)
dialogue =
    record { request = some (get_request envelope 1); replies = λ c. no_reply }
    ∷ record { request = none; replies = λ c. no_reply }
    ∷ []

get_sent : Memᴰ (get_job 1) (handle_connection demo session dialogue).commands
unfolding handle_connection carry_out serve_line token_of business_versions text_eq
get_sent = Memᴰ.head refl

handle_connection-IsAuthorised_example :
    (line : Line demo) × Memᴰ line dialogue × IsAuthorised demo session (get_job 1) line.request
handle_connection-IsAuthorised_example =
    handle_connection-IsAuthorised demo session dialogue (get_job 1) get_sent

handle_connection-Follows_example :
    Follows demo session dialogue (handle_connection demo session dialogue)
handle_connection-Follows_example = handle_connection-Follows demo session dialogue
