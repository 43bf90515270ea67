-- ===== src/Session.antt =====
-- Requests and the session behind them: proxmox.go's `authHeaders`, `runInterceptors` and `Req`
-- with its helpers, and access.go's `Ticket`, `CreateSession`, `RefreshTicket` and
-- `sessionCredentials`. They call one another: a request that is refused creates a session and
-- is made again. The recursion takes fuel.
pub mod Req
pub mod Steps
pub mod Bound
pub mod Sent
mod Otp
pub mod Sample
mod Tests
use go_proxmox.Prelude.{
  ℕ, zero, suc, ◌+◌, ◌*◌, ◌^◌, Bool, true, false, not, ◌&&◌, ◌||◌, Option, none, some, List, [],
  ◌∷◌, ◌++◌, if◌then◌else◌, ltb, ◌==◌, is_some,
}
use go_proxmox.Prelude.Text.{Text, codes, is_empty, has_prefix, text_eq, contains}
use go_proxmox.Prelude.Map.{Map}
use go_proxmox.Errors.{
  Error, sentinel, not_authorized, session_exists, no_session, errors_is, wrapped, Result, ok, err,
}
use go_proxmox.Json.{Json}
use go_proxmox.World.{Request, Response, Credentials, Session, History, sent, Env}
use go_proxmox.Client.Response.{handle_response}
use go_proxmox.Client.{
  Client, Interceptor, State, Action, ◌>>=◌, ◌>>◌, pure, raise, lift, gets, try, modify,
}

-- `authHeaders`, onto the headers that are there.
unfoldable pub auth_headers : Client → Map Text → Map Text
auth_headers c header =
    let common =
      header
      ++ ((codes "User-Agent", c.user_agent) ∷ (codes "Accept", codes "application/json") ∷ []) in
    if not (is_empty c.token)
    then common ++ ((codes "Authorization", codes "PVEAPIToken=" ++ c.token) ∷ [])
    else elim c.session [
      | none ↦ common
      | some s ↦
          common
          ++ ((codes "Cookie", codes "PVEAuthCookie=" ++ s.ticket)
              ∷ (codes "CSRFPreventionToken", s.csrf_prevention_token)
              ∷ [])
    ]

-- `runInterceptors`: in order, nil entries skipped, the first error ends the chain.
unfoldable pub run_interceptors : List (Option Interceptor) → Request → Result Request
run_interceptors [] req = ok req
run_interceptors (none ∷ fns) req = run_interceptors fns req
run_interceptors (some fn ∷ fns) req = elim (fn req) [
  | err e ↦ err (wrapped (codes "request interceptor: ") e)
  | ok req' ↦ run_interceptors fns req'
]

abbrev pub hour : ℕ
hour = 3600 * 10 ^ 9

abbrev pub ticket_path : Text
ticket_path = codes "/access/ticket"

-- The client's address in front of a path that begins with a slash.
abbrev pub full_url : Client → Text → Text
full_url c path = if has_prefix path (codes "/") then c.base_url ++ path else path

abbrev pub is_refusal : ℕ → Bool
is_refusal code = code == 401 || code == 403

abbrev pub json_header : Option Text → Map Text
json_header none = []
json_header (some _) = (codes "Content-Type", codes "application/json") ∷ []

-- `Req` without its recursion, as the parameter of what it calls and what calls it.
abbrev pub Requester : Type 0
Requester = Text → Text → Option Text → Bool → Action (Option Json)

module _ (env : Env) where
  unfoldable pub send : Request → Action Response
  send r s = some (env.answer s.past r, record s { past = sent r ∷ s.past })

  -- The part of `Req` up to the answer.
  unfoldable pub exchange : Text → Text → Option Text → Action Response
  unfolding auth_headers run_interceptors send
  exchange method url body = do
    lift (elim (env.request_error method url) [ none ↦ ok tt | some e ↦ err e ])
    c ← gets (λ s. s.client)
    let r : Request = record {
      method = method;
      url = url;
      headers = auth_headers c (json_header body);
      body = body;
    }
    r' ← lift (run_interceptors c.interceptors r)
    send r'

  -- `Ticket`: what is decoded lands in `c.session`, also beside an error.
  unfoldable pub decode_ticket : Option Json → Action (Unit {0})
  decode_ticket none s = some (ok tt, s)
  decode_ticket (some v) s =
      let decoded = env.decode_session s.client.session v in
      let s' : State = record s { client = record (s.client) { session = decoded.1 } } in
      elim decoded.0 [ none ↦ some (ok tt, s') | some e ↦ some (err e, s') ]

  unfoldable pub ticket_with : Requester → Option Credentials → Action (Unit {0})
  unfolding decode_ticket
  ticket_with rq credentials =
      rq (codes "POST") ticket_path (some (env.render_credentials credentials)) true
      >>= decode_ticket

  -- `c.sessionExpiresAt = time.Now().Add(time.Hour)`.
  unfoldable pub extend_session : Action (Unit {0})
  extend_session = do
    t ← gets (λ s. env.now s.past)
    modify (λ c. record c { session_expires_at = t + hour })

  -- `refreshTicketLocked`: the old ticket is the password.
  unfoldable pub renew_with : Requester → Option Session → Action (Unit {0})
  renew_with rq none = raise (sentinel no_session)
  renew_with rq (some old) = if is_empty old.ticket then raise (sentinel no_session) else (do
    ticket_with rq (
        some (record {
          username = old.username;
          password = old.ticket;
          otp = [];
          path = [];
          privs = [];
          realm = [];
        }))
    extend_session)

  unfoldable pub refresh_ticket_with : Requester → Action (Unit {0})
  unfolding renew_with
  refresh_ticket_with rq s = renew_with rq s.client.session s

  unfoldable pub merge_otp : Text → Credentials → Credentials
  merge_otp otp merged = if not (is_empty otp) then record merged { otp = otp } else merged

  unfoldable pub merge_realm : Text → Credentials → Credentials
  merge_realm realm merged =
      if not (is_empty realm)
        && (is_empty merged.realm && not (contains merged.username (codes "@")))
      then record merged { realm = realm }
      else merged

  abbrev pub credentials_from : Option Credentials → Action (Option Credentials)
  credentials_from none s = some (ok none, s)
  credentials_from (some given) s =
      if is_empty s.client.otp && is_empty s.client.default_realm
      then some (ok (some given), s)
      else some (
        ok (some (merge_realm s.client.default_realm (merge_otp s.client.otp given))),
        record s { client = record (s.client) { otp = [] } },
      )

  -- `sessionCredentials`; the client's one-time password is spent.
  unfoldable pub session_credentials : Action (Option Credentials)
  unfolding merge_otp merge_realm
  session_credentials s = credentials_from s.client.credentials s
