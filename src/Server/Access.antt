-- ===== src/Server/Access.antt =====
-- Who reaches the scheduler (remy-cc/src/server.rs, `handle_connection`).
use remy_cc.Prelude.{◌≡◌, ◌⊎◌, Option, none, some, inl, inr}
use remy_cc.Host.{Host}
use remy_cc.Scheduler.{Command, Reply}
use remy_cc.Protocol.{
  current_protocol, current_schema, Request, hello_request, ping, shutdown_request, submit_request,
  promote_request, get_request, cancel_request, list_request, status_request, open_config_ui,
  token_of, business_versions,
}
use remy_cc.Server.{Session, Handling, ask, serve_request}

module _ (host : Host) (session : Session) (c : Command host) where
  -- The line is a request with the session's token and the daemon's versions, and `c` is its command.
  pub record IsAuthorised (line : Option Request) : Type 0 where
    pub request : Request
    pub is_request : line ≡ some request
    pub token : token_of request ≡ session.token
    pub versions : business_versions request ≡ some (current_protocol, current_schema)
    pub answer : Reply host → Handling host
    pub command : serve_request host session request ≡ ask c answer

  -- A request without versions is answered by the server.
  unversioned :
      (request : Request) (answer : Reply host → Handling host)
      → business_versions request ≡ none
      → ¬ (serve_request host session request ≡ ask c answer)
  unfolding business_versions serve_request
  unversioned (hello_request _ _) answer e h = cc
  unversioned (ping _) answer e h = cc
  unversioned (shutdown_request _) answer e h = cc
  unversioned (submit_request _ _ _ _ _) answer e h = cc
  unversioned (promote_request _ _ _) answer e h = cc
  unversioned (get_request _ _) answer e h = cc
  unversioned (cancel_request _ _) answer e h = cc
  unversioned (list_request _ _ _ _ _ _) answer e h = cc
  unversioned (status_request _) answer e h = cc
  unversioned (open_config_ui _ _ _) answer e h = cc

  -- The command of a request with the token that passes the test of the versions.
  pub IsAuthorised-of :
      (line : Option Request) (request : Request) (answer : Reply host → Handling host)
      → (line ≡ some request) × (token_of request ≡ session.token)
      → (business_versions request ≡ none)
        ⊎ (business_versions request ≡ some (current_protocol, current_schema))
      → serve_request host session request ≡ ask c answer
      → IsAuthorised line
  IsAuthorised-of line request answer k (inl none_there) h =
      absurd (unversioned request answer none_there h)
  IsAuthorised-of line request answer k (inr v) h = record {
    request = request;
    is_request = k.0;
    token = k.1;
    versions = v;
    answer = answer;
    command = h;
  }
