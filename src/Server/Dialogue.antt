-- ===== src/Server/Dialogue.antt =====
-- remy-cc/src/server.rs, `handle_connection`: the lines of one connection, one after the other. Between two
-- lines the scheduler serves others, so each line comes with the replies that it would get.
use remy_cc.Prelude.{List, [], ◌∷◌, ◌++◌, Option}
use remy_cc.Host.{Host}
use remy_cc.Job.{StateError}
use remy_cc.Scheduler.{Command, Reply}
use remy_cc.Protocol.{Request, Response}
use remy_cc.Server.{Session, Handling, write, ask, proceed, close, stop, fail, serve_line}

module _ (host : Host) where
  -- `ConnectionOutcome`, or the error that is returned
  pub data Ending : Type 0 where
    carry_on : Ending
    shut_down : Ending
    failed_on : StateError → Ending

  pub data Next : Type 0 where
    next_line : Next
    ends : Ending → Next

  pub record Served : Type 0 where
    pub responses : List (Response host)
    pub commands : List (Command host)
    pub ending : Ending

  -- What is done for a line.
  pub record Done : Type 0 where
    pub written : List (Response host)
    pub sent : List (Command host)
    pub next : Next

  pub record Line : Type 0 where
    pub request : Option Request
    pub replies : Command host → Reply host

  unfoldable pub carry_out : (Command host → Reply host) → Handling host → Done
  carry_out replies (write r h) =
      let done = carry_out replies h in record done { written = r ∷ done.written }
  carry_out replies (ask c f) =
      let done = carry_out replies (f (replies c)) in record done { sent = c ∷ done.sent }
  carry_out replies proceed = record { written = []; sent = []; next = next_line }
  carry_out replies close = record { written = []; sent = []; next = ends carry_on }
  carry_out replies stop = record { written = []; sent = []; next = ends shut_down }
  carry_out replies (fail e) = record { written = []; sent = []; next = ends (failed_on e) }

  abbrev pub continue_from : Next → Done → Served → Served
  continue_from (ends e) done later = record {
    responses = done.written;
    commands = done.sent;
    ending = e;
  }
  continue_from next_line done later = record {
    responses = done.written ++ later.responses;
    commands = done.sent ++ later.commands;
    ending = later.ending;
  }

  unfoldable pub handle_connection : Session → List Line → Served
  unfolding carry_out serve_line
  handle_connection session [] = record { responses = []; commands = []; ending = carry_on }
  handle_connection session (line ∷ lines) =
      let done = carry_out line.replies (serve_line host session line.request) in
      continue_from done.next done (handle_connection session lines)
