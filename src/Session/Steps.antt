-- ===== src/Session/Steps.antt =====
-- How each part of `Req` and `CreateSession` ends: what it leaves of the client, and how many
-- requests it makes.
use Prim.Native.Nat.{suc}
use go_proxmox.Prelude.{
  ℕ, ◌+◌, ◌≤◌, ◌<◌, ◌≡◌, refl, true, Option, none, some, ◌++◌, arith, length, is_some, ap, [], ◌∷◌,
  List, ◌≢◌, ◌∙◌, sym, Option-cases, Bool-cases, inl, inr,
}
use go_proxmox.Prelude.Text.{Text, codes, text_eq, has_prefix, is_empty}
use go_proxmox.Prelude.Text.Laws.{text_eq_refl}
use go_proxmox.Errors.{Error, Result, ok, err}
use go_proxmox.Prelude.Map.{Map}
use go_proxmox.Json.{Json}
use go_proxmox.World.{Request, sent, Response, Session, Credentials, History, Env}
use go_proxmox.Client.{Client, Interceptor, State, ◌>>=◌, lift}
use go_proxmox.Client.Ends.{Ends, Ends-bind, Ends-mono, Ends-try}
use go_proxmox.Client.Response.{handle_response}
use go_proxmox.Session.{
  Requester, auth_headers, json_header, run_interceptors, send, is_refusal, hour, ticket_path,
  exchange, decode_ticket, ticket_with, extend_session, refresh_ticket_with, session_credentials,
}
use go_proxmox.Session.{renew_with}
use go_proxmox.Session.Req.{
  req, has_live_session, create_session_with, or_log_in_with, log_in_with, refused_with,
  request_step,
}

-- The client is the same, and at most `k` requests were made.
abbrev pub Quiet : {A : Type 0} → ℕ → State → Result A → State → Type 0
Quiet k s r t = (t.client ≡ s.client) × (length t.past ≤ length s.past + k)

-- A wanted payload is there, and is not null.
abbrev pub Holds : Result (Option Json) → Type 0
Holds (ok none) = ⊥
Holds (ok (some v)) = v ≢ Json.null
Holds (err _) = Unit

abbrev pub TicketAnswer : State → Result (Option Json) → State → Type 0
TicketAnswer s r t = Quiet 1 s r t × Holds r

-- A session that stays valid for the hour from `start`.
abbrev pub IsLive : ℕ → Client → Type 0
IsLive start c = (is_some c.session ≡ true) × (start + hour ≤ c.session_expires_at)

abbrev pub HasSession : Result (Unit {0}) → State → Type 0
HasSession (ok _) t = is_some t.client.session ≡ true
HasSession (err _) t = Unit

abbrev pub Renewed : ℕ → Result (Unit {0}) → State → Type 0
Renewed start (ok _) t = IsLive start t.client
Renewed start (err _) t = Unit

abbrev pub Within :
    (Result (Unit {0}) → State → Type 0) → ℕ → State → Result (Unit {0}) → State → Type 0
Within P k s r t =
    ((length t.past ≤ length s.past + k) × (t.client.interceptors ≡ s.client.interceptors)) × P r t

-- encoding/json: a value that is not null, and decodes, gives a session.
abbrev pub DecodesValues : Env → Type 0
DecodesValues env =
    (old : Option Session) (v : Json)
    → v ≢ Json.null
    → (env.decode_session old v).0 ≡ none
    → is_some (env.decode_session old v).1 ≡ true

-- The server: no login, as the interceptors hand it on, is accepted with null for a session.
abbrev pub AnswersLogins : List (Option Interceptor) → Env → Type 0
AnswersLogins fns env =
    (h : History) (base : Text) (body : Option Text) (headers : Map Text) (r : Request)
    (res : Response)
    → run_interceptors fns (record {
      method = codes "POST";
      url = base ++ ticket_path;
      headers = headers;
      body = body;
    })
      ≡ ok r
    → env.answer h r ≡ ok res
    → handle_response env res true ≢ ok (some Json.null)

-- A login that the server accepts gives a session: of a client with these interceptors, and of one
-- that has none.
abbrev pub DecodesSessionFor : List (Option Interceptor) → Env → Type 0
DecodesSessionFor fns env = DecodesValues env × AnswersLogins fns env

abbrev pub DecodesSession : Env → Type 0
DecodesSession env = DecodesSessionFor [] env

-- The clock reads less than an hour past `start`.
abbrev pub IsTimely : ℕ → Env → Type 0
IsTimely start env = (h : History) → (start ≤ env.now h) × (env.now h < start + hour)

module _ (env : Env) where
  pub exchange-Quiet :
      (method url : Text) (body : Option Text) (s : State)
      → Ends (exchange env method url body s) (Quiet 1 s)
  unfolding exchange
  exchange-Quiet method url body s = ground arith

  handle_response_wanted :
      (res : Response) {a : Option Json} → handle_response env res true ≡ ok a → is_some a ≡ true
  unfolding handle_response
  handle_response_wanted res h = ground arith

  wanted_answer :
      (o : Result (Option Json))
      → ((a : Option Json) → o ≡ ok a → is_some a ≡ true)
      → o ≢ ok (some Json.null)
      → Holds o
  wanted_answer (ok none) wanted full = ground (arith, wanted none refl)
  wanted_answer (ok (some v)) wanted full = λ e. full (ap (λ x. ok (some x)) e)
  wanted_answer (err e) wanted full = tt

  -- What the answer to a login holds, where it is accepted.
  abbrev LoginAnswer : State → Result Response → State → Type 0
  LoginAnswer s (ok res) t = Quiet 1 s (ok tt) t × Holds (handle_response env res true)
  LoginAnswer s (err _) t = Quiet 1 s (ok tt) t

  module _ (fns : List (Option Interceptor)) (logins : AnswersLogins fns env) where
    answered :
        (base : Text) (body : Option Text) (headers : Map Text) (r : Request) (s : State)
        (o : Result Response)
        → run_interceptors fns (record {
          method = codes "POST";
          url = base ++ ticket_path;
          headers = headers;
          body = body;
        })
          ≡ ok r
        → env.answer s.past r ≡ o
        → LoginAnswer s o (record s { past = sent r ∷ s.past })
    answered base body headers r s (ok res) e a = (
      (refl, omega arith),
      wanted_answer (handle_response env res true) (λ x h. handle_response_wanted res h)
          (logins s.past base body headers r res e a),
    )
    answered base body headers r s (err _) e a = (refl, omega arith)

    run-Answered :
        (base : Text) (body : Option Text) (headers : Map Text) (s : State) (o : Result Request)
        → run_interceptors fns (record {
          method = codes "POST";
          url = base ++ ticket_path;
          headers = headers;
          body = body;
        })
          ≡ o
        → Ends ((lift o >>= send env) s) (LoginAnswer s)
    unfolding send
    run-Answered base body headers s (ok r) e =
        answered base body headers r s (env.answer s.past r) e refl
    run-Answered base body headers s (err _) e = (refl, omega arith)

    login-Answered :
        (body : Option Text) (s : State)
        → s.client.interceptors ≡ fns
        → Ends
            (exchange env (codes "POST") (s.client.base_url ++ ticket_path) body s)
            (LoginAnswer s)
    unfolding exchange
    login-Answered body s same =
        elim (Option-cases (env.request_error (codes "POST") (s.client.base_url ++ ticket_path))) [
          | inl e ↦ rw e (
              run-Answered s.client.base_url body (auth_headers s.client (json_header body)) s _ (
                ap
                  (λ l. run_interceptors l (record {
                    method = codes "POST";
                    url = s.client.base_url ++ ticket_path;
                    headers = auth_headers s.client (json_header body);
                    body = body;
                  }))
                  (sym same)))
          | inr (x, e) ↦ rw e (refl, omega arith)
        ]

  ticket_url_refused :
      (rq : Requester) (url : Text) (body : Option Text) (s t : State)
      → Quiet 1 s (ok tt) t
      → url ≡ s.client.base_url ++ ticket_path
      → Ends (refused_with env rq (codes "POST") url body true t) (TicketAnswer s)
  unfolding refused_with
  ticket_url_refused rq url body s t (same, le) e =
      let at_ticket : text_eq url (t.client.base_url ++ ticket_path) ≡ true =
        rw (e, same) (text_eq_refl _) in
      rw at_ticket ((same, le), tt)

  ticket-req :
      (fns : List (Option Interceptor))
      → AnswersLogins fns env
      → (f : ℕ) (body : Option Text) (s : State) → s.client.interceptors ≡ fns
      → Ends (req env (suc f) (codes "POST") ticket_path body true s) (TicketAnswer s)
  unfolding req request_step has_prefix
  ticket-req fns logins f body s same =
      Ends-bind (exchange env (codes "POST") _ body) _ s (LoginAnswer s) (TicketAnswer s)
        (login-Answered fns logins body s same)
        (λ res t q. elim (Bool-cases (is_refusal res.code)) [
          | inl e ↦ rw e (ticket_url_refused (req env f) _ body s t q.0 refl)
          | inr e ↦ rw e q
        ])
        (λ e t q. (q, tt))

  -- The server's answer to a login holds a session, and the whole call takes less than an hour.
  module _ (fns : List (Option Interceptor)) (start : ℕ) (decodes : DecodesSessionFor fns env)
      (timely : IsTimely start env) where
    decode_ticket-ends :
        (k : ℕ) (s : State) (a : Option Json) (t : State)
        → (length t.past ≤ length s.past + k) × (t.client.interceptors ≡ s.client.interceptors)
        → Holds (ok a)
        → Ends (decode_ticket env a t) (Within HasSession k s)
    unfolding decode_ticket
    decode_ticket-ends k s none t le h = absurd h
    decode_ticket-ends k s (some v) t le h =
        go (env.decode_session t.client.session v) (decodes.0 t.client.session v h)
      where
        go :
            (d : Option Error × Option Session)
            → (d.0 ≡ none → is_some d.1 ≡ true)
            → Ends
                (elim d.0 [
                  | none ↦ some (ok tt, record t { client = record (t.client) { session = d.1 } })
                  | some e ↦ some (err e, record t { client = record (t.client) { session = d.1 } })
                ])
                (Within HasSession k s)
        go (none, x) g = (le, g refl)
        go (some e, x) g = (le, tt)

    ticket_with-ends :
        (f : ℕ) (c : Option Credentials) (s : State)
        → s.client.interceptors ≡ fns
        → Ends (ticket_with env (req env (suc f)) c s) (Within HasSession 1 s)
    unfolding ticket_with
    ticket_with-ends f c s kept =
        Ends-bind (req env (suc f) (codes "POST") ticket_path _ true) _ s (TicketAnswer s)
          (Within HasSession 1 s) (ticket-req fns decodes.1 f _ s kept)
          (λ a t q. decode_ticket-ends 1 s a t (q.0.1, ap (λ c. c.interceptors) q.0.0) q.1)
          (λ e t q. ((q.0.1, ap (λ c. c.interceptors) q.0.0), tt))

    extend_session-ends :
        (k : ℕ) (s t : State)
        → Within HasSession k s (ok tt) t
        → Ends (extend_session env t) (Within (Renewed start) k s)
    unfolding extend_session
    extend_session-ends k s t q = (q.0, (q.1, omega (arith, timely t.past)))

    -- A login or a renewal makes one request, and leaves a live session if it succeeds.
    pub ticket-then-extend :
        (f : ℕ) (c : Option Credentials) (s : State)
        → s.client.interceptors ≡ fns
        → Ends
            ((ticket_with env (req env (suc f)) c >>= λ _. extend_session env) s)
            (Within (Renewed start) 1 s)
    ticket-then-extend f c s kept =
        Ends-bind (ticket_with env (req env (suc f)) c) _ s (Within HasSession 1 s)
          (Within (Renewed start) 1 s) (ticket_with-ends f c s kept)
          (λ a t q. extend_session-ends 1 s t q) (λ e t q. (q.0, tt))

    renew-ends :
        (f : ℕ) (old : Option Session) (s : State)
        → s.client.interceptors ≡ fns
        → Ends (renew_with env (req env (suc f)) old s) (Within (Renewed start) 1 s)
    unfolding renew_with
    renew-ends f none s kept = ((omega arith, refl), tt)
    renew-ends f (some old) s kept = elim (Bool-cases (is_empty old.ticket)) [
      | inl h ↦ rw h ((omega arith, refl), tt)
      | inr h ↦ rw h (ticket-then-extend f _ s kept)
    ]

    pub refresh-ends :
        (f : ℕ) (s : State)
        → s.client.interceptors ≡ fns
        → Ends (refresh_ticket_with env (req env (suc f)) s) (Within (Renewed start) 1 s)
    unfolding refresh_ticket_with
    refresh-ends f s kept = renew-ends f s.client.session s kept

    session_credentials-ends :
        (s : State)
        → Ends
            (session_credentials env s)
            (λ r t. (t.past ≡ s.past) × (t.client.interceptors ≡ s.client.interceptors))
    unfolding session_credentials
    session_credentials-ends s = ground arith

    pub log_in-ends :
        (f : ℕ) (s : State)
        → s.client.interceptors ≡ fns
        → Ends (log_in_with env (req env (suc f)) s) (Within (Renewed start) 1 s)
    unfolding log_in_with
    log_in-ends f s kept =
        Ends-bind (session_credentials env) _ s
          (λ r t. (t.past ≡ s.past) × (t.client.interceptors ≡ s.client.interceptors))
          (Within (Renewed start) 1 s) (session_credentials-ends s)
          (λ c t same.
            Ends-mono _ (Within (Renewed start) 1 t) (Within (Renewed start) 1 s)
              (ticket-then-extend f c t (same.1 ∙ kept))
              (λ r u q. ((rw (← same.0) (q.0.0), q.0.1 ∙ same.1), q.1)))
          (λ e t same. ((omega (arith, ap (length {0}) (same.0)), same.1), tt))

    pub or_log_in-ends :
        (f : ℕ) (s : State) (r : Result (Unit {0})) (t : State)
        → s.client.interceptors ≡ fns
        → Within (Renewed start) 1 s r t
        → Ends (or_log_in_with env (req env (suc f)) r t) (Within (Renewed start) 2 s)
    unfolding or_log_in_with
    or_log_in-ends f s (ok _) t kept q = ((omega arith, q.0.1), q.1)
    or_log_in-ends f s (err e) t kept q =
        Ends-mono _ (Within (Renewed start) 1 t) (Within (Renewed start) 2 s)
          (log_in-ends f t (q.0.1 ∙ kept)) (λ r u p. ((omega arith, p.0.1 ∙ q.0.1), p.1))

    -- Creating a session makes two requests at most, and leaves a live session if it succeeds.
    pub create_session-ends :
        (f : ℕ) (s : State)
        → s.client.interceptors ≡ fns
        → Ends (create_session_with env (req env (suc f)) s) (Within (Renewed start) 2 s)
    unfolding create_session_with
    create_session-ends f s kept = elim (Bool-cases (has_live_session env s)) [
      | inl e ↦ rw e ((omega arith, refl), tt)
      | inr e ↦ rw e (elim (Bool-cases (is_some s.client.session)) [
        | inl old ↦ rw old (
            Ends-try (refresh_ticket_with env (req env (suc f))) _ s (Within (Renewed start) 1 s)
              (Within (Renewed start) 2 s) (refresh-ends f s kept)
              (λ r t q. or_log_in-ends f s r t kept q))
        | inr fresh ↦ rw fresh (
            Ends-mono _ (Within (Renewed start) 1 s) (Within (Renewed start) 2 s)
              (log_in-ends f s kept) (λ r u p. ((omega arith, p.0.1), p.1)))
      ])
    ]
