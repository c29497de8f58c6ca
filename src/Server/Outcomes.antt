-- ===== src/Server/Outcomes.antt =====
-- What a line of a connection leads to (remy-cc/src/server.rs, `handle_connection`).
use remy_cc.Prelude.{
  ℕ, ◌≡◌, ◌≢◌, ◌↔◌, true, subst, refl, sym, ◌∙◌, Option, none, some, List, [], ◌∷◌, Text, codes,
  text_eq, text_eq_iff, ==_iff, ◌==◌, Bool-cases, ◌⊎◌, inl, inr,
}
use remy_cc.Host.{Host}
use remy_cc.Job.{StateError}
use remy_cc.Scheduler.{
  Command, submit_job, promote_job, get_job, cancel_job, list_jobs, status, Reply,
}
use remy_cc.Protocol.{
  current_protocol, current_schema, Request, hello_request, ping, shutdown_request, submit_request,
  promote_request, get_request, cancel_request, list_request, status_request, open_config_ui,
  token_of, business_versions, Envelope, not_protocol_json, token_mismatch, client_protocol,
  client_schema, of_state, bad_ui_mode, config_ui, ui_conflict, ui_diagnostic, Response, greeting,
  ack, error,
}
use remy_cc.Server.{
  Session, Handling, ask, error_code, valid_ui_mode, opened, OpenOutcome, ready, conflict,
  spawn_failed, refuse, on_submitted, on_promoted, on_got, on_cancelled, on_listed, on_status,
  applied_limit, serve_request, check_versions, serve_line,
}
use remy_cc.Server.Access.{IsAuthorised, IsAuthorised-of}
use remy_cc.Server.Answers.{
  IsFatal, failure_of, Fits, on_submitted-Fits, on_promoted-Fits, on_got-Fits, on_cancelled-Fits,
  on_listed-Fits, on_status-Fits, Reports, list_filter,
}
use remy_cc.Server.Dialogue.{carry_on, shut_down, failed_on, Next, next_line, ends, Line, carry_out}

-- Global pages have no target, and those of a project have one.
abbrev pub IsMode : Text → Option Text → Type 0
IsMode mode none = mode ≡ codes "global"
IsMode mode (some _) = mode ≡ codes "project"

global_or_project : (mode : Text) → text_eq mode (codes "global") ≡ true → mode ≢ codes "project"
unfolding text_eq
global_or_project mode t e =
    let other : text_eq (codes "project") (codes "global") ≡ true =
      subst (λ z. text_eq z (codes "global") ≡ true) e t in
    cc other

valid_ui_mode-IsMode :
    (host : Host) (mode : Text) (target : Option Text)
    → (valid_ui_mode host mode target ≡ true) ↔ IsMode mode target
unfolding valid_ui_mode
valid_ui_mode-IsMode host mode none = elim (Bool-cases (text_eq mode (codes "global"))) [
  | inl t ↦ rw (t, valid_ui_mode) (λ h. (text_eq_iff mode (codes "global")).0 t, λ e. refl)
  | inr f ↦ elim (Bool-cases (text_eq mode (codes "project"))) [
    | inl t ↦
        rw (f, t, valid_ui_mode)
          (λ h. cc h, λ e. cc (sym f ∙ (text_eq_iff mode (codes "global")).1 e))
    | inr g ↦
        rw (f, g, valid_ui_mode)
          (λ h. cc h, λ e. cc (sym f ∙ (text_eq_iff mode (codes "global")).1 e))
  ]
]
valid_ui_mode-IsMode host mode (some u) = elim (Bool-cases (text_eq mode (codes "global"))) [
  | inl t ↦ rw (t, valid_ui_mode) (λ h. cc h, λ e. absurd (global_or_project mode t e))
  | inr f ↦ elim (Bool-cases (text_eq mode (codes "project"))) [
    | inl t ↦ rw (f, t, valid_ui_mode) (λ h. (text_eq_iff mode (codes "project")).0 t, λ e. refl)
    | inr g ↦
        rw (f, g, valid_ui_mode)
          (λ h. cc h, λ e. cc (sym g ∙ (text_eq_iff mode (codes "project")).1 e))
  ]
]

module _ (host : Host) (session : Session) where
  -- A request with the session's token.
  abbrev pub Knows : Option Request → Request → Type 0
  Knows line q = (line ≡ some q) × (token_of q ≡ session.token)

  -- What the host of the pages did, as a response.
  pub data Opens : OpenOutcome → Response host → Type 0 where
    opened_at : (url token : Text) → Opens (ready url token) (config_ui url token)
    held :
        (mode : Text) (target : Option Text) (pid port : ℕ)
        → Opens
            (conflict mode target pid port)
            (error (codes "ui_conflict") (ui_conflict mode target pid port))
    not_started :
        (diagnostic : Text)
        → Opens
            (spawn_failed diagnostic)
            (error (codes "ui_spawn_failed") (ui_diagnostic diagnostic))

  -- The requests that the server answers itself.
  pub data Own : Request → Response host → Type 0 where
    hello :
        (n : ℕ) (token : Text) → Own (hello_request n token) (greeting host session.daemon_version)
    pinged : (token : Text) → Own (ping token) ack
    pages :
        (e : Envelope) (mode : Text) (target : Option Text) (r : Response host)
        → IsMode mode target
        → Opens (session.ui_open mode target) r
        → Own (open_config_ui e mode target) r
    no_mode :
        (e : Envelope) (mode : Text) (target : Option Text)
        → ¬ IsMode mode target
        → Own (open_config_ui e mode target) (error (codes "invalid_request") bad_ui_mode)

  abbrev pub Current : Request → Type 0
  Current q = business_versions q ≡ some (current_protocol, current_schema)

  -- What a line may lead to.
  pub data Outcome (line : Line host)
      : List (Command host) → List (Response host) → Next host → Type 0 where
    no_request :
        line.request ≡ none
        → Outcome line [] (error (codes "invalid_request") not_protocol_json ∷ []) next_line
    other_token :
        (q : Request)
        → line.request ≡ some q
        → token_of q ≢ session.token
        → Outcome line [] (error (codes "bad_token") token_mismatch ∷ []) (ends carry_on)
    other_protocol :
        (q : Request) (protocol schema : ℕ)
        → Knows line.request q
        → business_versions q ≡ some (protocol, schema)
        → protocol ≢ current_protocol
        → Outcome line []
            (error (codes "incompatible_protocol") (client_protocol protocol) ∷ [])
            next_line
    other_schema :
        (q : Request) (schema : ℕ)
        → Knows line.request q
        → business_versions q ≡ some (current_protocol, schema)
        → schema ≢ current_schema
        → Outcome line []
            (error (codes "incompatible_state_schema") (client_schema schema) ∷ [])
            next_line
    shutting_down :
        (token : Text)
        → Knows line.request (shutdown_request token)
        → Outcome line [] (ack ∷ []) (ends shut_down)
    own :
        (q : Request) (r : Response host)
        → Knows line.request q
        → Own q r
        → (business_versions q ≡ none) ⊎ Current q
        → Outcome line [] (r ∷ []) next_line
    replied :
        (q : Request) (c : Command host) (r : Response host)
        → Knows line.request q
        → IsAuthorised host session c line.request
        → failure_of host c (line.replies c) ≡ none
        → Reports host session q (line.replies c) r
        → Outcome line (c ∷ []) (r ∷ []) next_line
    refused :
        (c : Command host) (e : StateError)
        → IsAuthorised host session c line.request
        → failure_of host c (line.replies c) ≡ some e
        → ¬ IsFatal e
        → Outcome line (c ∷ []) (error (error_code e) (of_state e) ∷ []) next_line
    fatal :
        (c : Command host) (e : StateError)
        → IsAuthorised host session c line.request
        → failure_of host c (line.replies c) ≡ some e
        → IsFatal e
        → Outcome line (c ∷ []) [] (ends (failed_on e))

  abbrev pub HasOutcome : Line host → Handling host → Type 0
  HasOutcome line h =
      let done = carry_out host line.replies h in Outcome line done.sent done.written done.next

  -- A command, by what its reply leads to.
  passed_on :
      (line : Line host) (q : Request) (c : Command host) (answer : Reply host → Handling host)
      → Knows line.request q
      → (business_versions q ≡ none) ⊎ Current q
      → serve_request host session q ≡ ask c answer
      → Fits host session q
          (line.replies c)
          (answer (line.replies c))
          (failure_of host c (line.replies c))
      → HasOutcome line (ask c answer)
  unfolding carry_out
  passed_on line q c answer k v asks fits = go (failure_of host c (line.replies c)) refl fits
    where
      allowed : IsAuthorised host session c line.request
      allowed = IsAuthorised-of host session c line.request q answer k v asks

      go :
          (failure : Option StateError)
          → failure_of host c (line.replies c) ≡ failure
          → Fits host session q (line.replies c) (answer (line.replies c)) failure
          → HasOutcome line (ask c answer)
      go none e (r, reports, h) = rw h (replied q c r k allowed e reports)
      go (some failure) e (inl (is_fatal, h)) = rw h (fatal c failure allowed e is_fatal)
      go (some failure) e (inr (is_not, h)) = rw h (refused c failure allowed e is_not)

  module _ (line : Line host) where
    opened-HasOutcome :
        (e : Envelope) (mode : Text) (target : Option Text) (o : OpenOutcome)
        → session.ui_open mode target ≡ o
        → IsMode mode target
        → Knows line.request (open_config_ui e mode target)
        → Current (open_config_ui e mode target)
        → HasOutcome line (opened host o)
    unfolding opened refuse carry_out
    opened-HasOutcome e mode target (ready url token) is m k v =
        own (open_config_ui e mode target) _ k
          (pages e mode target _ m
            (subst (λ o. Opens o (config_ui url token)) (sym is) (opened_at url token)))
          (inr v)
    opened-HasOutcome e mode target (conflict a b c d) is m k v =
        own (open_config_ui e mode target) _ k
          (pages e mode target _ m (
            subst (λ o. Opens o (error (codes "ui_conflict") (ui_conflict a b c d))) (sym is)
              (held a b c d)))
          (inr v)
    opened-HasOutcome e mode target (spawn_failed d) is m k v =
        own (open_config_ui e mode target) _ k
          (pages e mode target _ m (
            subst (λ o. Opens o (error (codes "ui_spawn_failed") (ui_diagnostic d))) (sym is)
              (not_started d)))
          (inr v)

    -- The `match request`, for a request that passed the checks.
    serve_request-HasOutcome :
        (q : Request)
        → Knows line.request q
        → (business_versions q ≡ none) ⊎ Current q
        → HasOutcome line (serve_request host session q)
    unfolding serve_request carry_out refuse business_versions
    serve_request-HasOutcome (hello_request n token) k v = own _ _ k (hello n token) v
    serve_request-HasOutcome (ping token) k v = own _ _ k (pinged token) v
    serve_request-HasOutcome (shutdown_request token) k v = shutting_down token k
    serve_request-HasOutcome (submit_request e project db file p) k v =
        passed_on line (submit_request e project db file p)
          (submit_job
            (record { project_path = project; db_path = db; file_path = file; priority = p }))
          (on_submitted host) k v refl
          (on_submitted-Fits host session e project db file p (
            line.replies (
              submit_job
                (record { project_path = project; db_path = db; file_path = file; priority = p }))))
    serve_request-HasOutcome (promote_request e id p) k v =
        passed_on line (promote_request e id p) (promote_job id p) (on_promoted host) k v refl
          (on_promoted-Fits host session e id p (line.replies (promote_job id p)))
    serve_request-HasOutcome (get_request e id) k v =
        passed_on line (get_request e id) (get_job id) (on_got host) k v refl
          (on_got-Fits host session e id (line.replies (get_job id)))
    serve_request-HasOutcome (cancel_request e id) k v =
        passed_on line (cancel_request e id) (cancel_job id) (on_cancelled host) k v refl
          (on_cancelled-Fits host session e id (line.replies (cancel_job id)))
    serve_request-HasOutcome (list_request e project file st job_type limit) k v =
        passed_on line (list_request e project file st job_type limit)
          (list_jobs (list_filter host e project file st job_type limit))
          (on_listed host (applied_limit host limit)
            (record { project_path = project; file_path = file; status = st; job_type = job_type }))
          k v refl
          (on_listed-Fits host session e project file st job_type limit
            (line.replies (list_jobs (list_filter host e project file st job_type limit))))
    serve_request-HasOutcome (status_request e) k v =
        passed_on line (status_request e) status (on_status host session) k v refl
          (on_status-Fits host session e (line.replies status))
    serve_request-HasOutcome (open_config_ui e mode target) k (inl none_there) = cc none_there
    serve_request-HasOutcome (open_config_ui e mode target) k (inr v) =
        let valid = valid_ui_mode-IsMode host mode target in
        elim (Bool-cases (valid_ui_mode host mode target)) [
          | inl t ↦
              rw t
                (opened-HasOutcome e mode target (session.ui_open mode target) refl (valid.0 t) k v)
          | inr f ↦ rw f (own _ _ k (no_mode e mode target (λ m. cc (sym f ∙ valid.1 m))) (inr v))
        ]

    check_versions-HasOutcome :
        (q : Request) (v : Option (ℕ × ℕ))
        → Knows line.request q
        → business_versions q ≡ v
        → HasOutcome line (check_versions host session q v)
    unfolding check_versions refuse carry_out
    check_versions-HasOutcome q none k e = serve_request-HasOutcome q k (inl e)
    check_versions-HasOutcome q (some (p, s)) k e = elim (Bool-cases (p == current_protocol)) [
      | inl tp ↦
          let same_p = (==_iff p current_protocol).0 tp in
          elim (Bool-cases (s == current_schema)) [
            | inl ts ↦
                let same_s = (==_iff s current_schema).0 ts in
                rw (tp, ts) (serve_request-HasOutcome q k (inr (rw (same_p, same_s) at e)))
            | inr fs ↦
                rw (tp, fs)
                  (other_schema q s k (rw same_p at e)
                    (λ same. cc (sym fs ∙ (==_iff s current_schema).1 same)))
          ]
      | inr fp ↦
          rw fp
            (other_protocol q p s k e (λ same. cc (sym fp ∙ (==_iff p current_protocol).1 same)))
    ]

    pub serve_line-HasOutcome :
        (request : Option Request)
        → line.request ≡ request
        → HasOutcome line (serve_line host session request)
    unfolding serve_line refuse carry_out
    serve_line-HasOutcome none e = no_request e
    serve_line-HasOutcome (some q) e = elim (Bool-cases (text_eq (token_of q) session.token)) [
      | inl t ↦
          rw (t, serve_line)
            (check_versions-HasOutcome q (business_versions q)
              (e, (text_eq_iff (token_of q) session.token).0 t) refl)
      | inr f ↦
          rw (f, serve_line)
            (other_token q e (λ same. cc (sym f ∙ (text_eq_iff (token_of q) session.token).1 same)))
    ]
