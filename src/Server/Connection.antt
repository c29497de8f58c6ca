-- ===== src/Server/Connection.antt =====
-- What a connection does with its lines (remy-cc/src/server.rs, `handle_connection`).
use remy_cc.Prelude.{
  refl, sym, subst, Option, List, [], ◌∷◌, ◌++◌, Memᴰ, mem-append_cases, not-mem-nil,
  eq_of_mem_singleton, inl, inr,
}
use remy_cc.Host.{Host}
use remy_cc.Scheduler.{Command}
use remy_cc.Protocol.{Request, Response}
use remy_cc.Server.{Session, serve_line}
use remy_cc.Server.Access.{IsAuthorised}
use remy_cc.Server.Dialogue.{
  Ending, carry_on, Next, next_line, ends, Served, Done, Line, carry_out, continue_from,
  handle_connection,
}
use remy_cc.Server.Outcomes.{
  Outcome, no_request, other_token, other_protocol, other_schema, shutting_down, own, replied,
  refused, fatal, serve_line-HasOutcome,
}

module _ (host : Host) (session : Session) where
  -- What a connection does with its lines.
  pub data Follows : List (Line host) → Served host → Type 0 where
    no_lines : Follows [] (record { responses = []; commands = []; ending = carry_on })
    last :
        (line : Line host) (lines : List (Line host)) (sent : List (Command host))
        (written : List (Response host)) (e : Ending host)
        → Outcome host session line sent written (ends e)
        → Follows (line ∷ lines) (record { responses = written; commands = sent; ending = e })
    and_on :
        (line : Line host) (lines : List (Line host)) (sent : List (Command host))
        (written : List (Response host)) (later : Served host)
        → Outcome host session line sent written next_line
        → Follows lines later
        → Follows (line ∷ lines) (record {
          responses = written ++ later.responses;
          commands = sent ++ later.commands;
          ending = later.ending;
        })

  continue_from-Follows :
      (line : Line host) (lines : List (Line host)) (done : Done host) (next : Next host)
      (later : Served host)
      → Outcome host session line done.sent done.written next
      → Follows lines later
      → Follows (line ∷ lines) (continue_from host next done later)
  continue_from-Follows line lines done (ends e) later o f =
      last line lines done.sent done.written e o
  continue_from-Follows line lines done next_line later o f =
      and_on line lines done.sent done.written later o f

  -- A connection takes its lines in order, and each is answered once, except one that ends it without an
  -- answer. A line that is no request, or that has the token and another protocol or schema, gets the error
  -- for it and the next line follows. Another token gets its error and ends the connection; a shutdown with
  -- the token is acknowledged and ends the daemon. A request that the server answers itself sends nothing,
  -- any other sends its one command: the answer holds what the reply holds, or the error that the reply
  -- is, but a fatal error (a corrupt or missing database, input and output, no reply) is not answered and
  -- ends `serve`.
  pub handle_connection-Follows :
      (lines : List (Line host)) → Follows lines (handle_connection host session lines)
  unfolding handle_connection
  handle_connection-Follows [] = no_lines
  handle_connection-Follows (line ∷ lines) =
      let done = carry_out host line.replies (serve_line host session line.request) in
      continue_from-Follows line lines done done.next (handle_connection host session lines)
        (serve_line-HasOutcome host session line line.request refl)
        (handle_connection-Follows lines)

  sent_by :
      {line : Option Request} {c : Command host} (d : Command host)
      → IsAuthorised host session d line
      → Memᴰ c (d ∷ [])
      → IsAuthorised host session c line
  sent_by {line} d a m =
      subst (λ z. IsAuthorised host session z line) (sym (eq_of_mem_singleton m)) a

  Outcome-sent :
      (line : Line host) {sent : List (Command host)} {written : List (Response host)}
      {next : Next host} {c : Command host}
      → Outcome host session line sent written next
      → Memᴰ c sent
      → IsAuthorised host session c line.request
  Outcome-sent line (no_request _) m = absurd (not-mem-nil m)
  Outcome-sent line (other_token _ _ _) m = absurd (not-mem-nil m)
  Outcome-sent line (other_protocol _ _ _ _ _ _) m = absurd (not-mem-nil m)
  Outcome-sent line (other_schema _ _ _ _ _) m = absurd (not-mem-nil m)
  Outcome-sent line (shutting_down _ _) m = absurd (not-mem-nil m)
  Outcome-sent line (own _ _ _ _ _) m = absurd (not-mem-nil m)
  Outcome-sent line (replied q d r k a e reports) m = sent_by d a m
  Outcome-sent line (refused d r a e f) m = sent_by d a m
  Outcome-sent line (fatal d r a e f) m = sent_by d a m

  Follows-sent :
      (lines : List (Line host)) (served : Served host) (c : Command host)
      → Follows lines served
      → Memᴰ c served.commands
      → (line : Line host) × Memᴰ line lines × IsAuthorised host session c line.request
  Follows-sent lines served c no_lines m = absurd (not-mem-nil m)
  Follows-sent lines served c (last line rest sent written e o) m =
      (line, Memᴰ.head refl, Outcome-sent line o m)
  Follows-sent lines served c (and_on line rest sent written later o f) m =
      elim (mem-append_cases sent m) [
        | inl here ↦ (line, Memᴰ.head refl, Outcome-sent line o here)
        | inr there ↦
            let (line', m', allowed) = Follows-sent rest later c f there in
            (line', Memᴰ.tail m', allowed)
      ]

  -- A connection sends the scheduler only commands of its lines that are requests with the session's
  -- token and the daemon's two versions, whatever else it is sent and whatever the scheduler replies.
  pub handle_connection-IsAuthorised :
      (lines : List (Line host)) (c : Command host)
      → Memᴰ c (handle_connection host session lines).commands
      → (line : Line host) × Memᴰ line lines × IsAuthorised host session c line.request
  handle_connection-IsAuthorised lines c m =
      Follows-sent lines (handle_connection host session lines) c (handle_connection-Follows lines)
        m
