-- ===== src/Session/Req.antt =====
-- `CreateSession`, `RefreshTicket`, `Login` and `Req`, tied together on fuel, and the helpers over
-- `Req`. The mutex around the session is left out: nothing here runs beside anything else.
use Prim.Native.Nat.{zero, suc}
use go_proxmox.Prelude.{ℕ, Bool, ◌&&◌, Option, none, some, [], ◌++◌, if◌then◌else◌, ltb, is_some}
use go_proxmox.Prelude.Text.{Text, codes, text_eq}
use go_proxmox.Errors.{sentinel, not_authorized, session_exists, errors_is, Result, ok, err}
use go_proxmox.Json.{Json}
use go_proxmox.World.{Env}
use go_proxmox.Client.Response.{handle_response}
use go_proxmox.Client.{State, Action, ◌>>=◌, ◌>>◌, pure, raise, lift, gets, try}
use go_proxmox.Session.{
  Requester, full_url, is_refusal, ticket_path, exchange, ticket_with, extend_session,
  refresh_ticket_with, session_credentials,
}

module _ (env : Env) where
  -- The session is there and not yet past its time.
  abbrev pub has_live_session : State → Bool
  has_live_session s = is_some s.client.session && ltb (env.now s.past) s.client.session_expires_at

  -- The last part of `CreateSession`: log in.
  unfoldable pub log_in_with : Requester → Action (Unit {0})
  log_in_with rq = do
    credentials ← session_credentials env
    ticket_with env rq credentials
    extend_session env

  -- What `CreateSession` does with the outcome of a renewal.
  unfoldable pub or_log_in_with : Requester → Result (Unit {0}) → Action (Unit {0})
  unfolding log_in_with
  or_log_in_with rq (ok _) = pure tt
  or_log_in_with rq (err _) = log_in_with rq

  -- `CreateSession`: a live session is an error, an old one is renewed, else the client logs in.
  unfoldable pub create_session_with : Requester → Action (Unit {0})
  unfolding or_log_in_with
  create_session_with rq s =
      if has_live_session s
      then raise (sentinel session_exists) s
      else if is_some s.client.session
      then (try (refresh_ticket_with env rq) >>= or_log_in_with rq) s
      else log_in_with rq s

  -- What `Req` does with the outcome of `CreateSession`.
  unfoldable pub again_with :
      Requester → Text → Text → Option Text → Bool → Result (Unit {0}) → Action (Option Json)
  again_with rq method url body wants (err e) =
      raise (if errors_is e session_exists then sentinel not_authorized else e)
  again_with rq method url body wants (ok _) = rq method url body wants

  -- What `Req` does with a 401 or 403.
  unfoldable pub refused_with : Requester → Requester
  unfolding create_session_with again_with
  refused_with rq method url body wants s =
      if text_eq url (s.client.base_url ++ ticket_path)
      then raise (sentinel not_authorized) s
      else if is_some s.client.credentials
      then (try (create_session_with rq) >>= again_with rq method url body wants) s
      else raise (sentinel not_authorized) s

  unfoldable pub request_step : Requester → Requester
  unfolding refused_with
  request_step rq method path body wants = do
    url ← gets (λ s. full_url s.client path)
    res ← exchange env method url body
    if is_refusal res.code
        then refused_with rq method url body wants
        else lift (handle_response env res wants)

  -- `Req`; without fuel it gives no answer.
  unfoldable pub req : ℕ → Requester
  unfolding request_step
  req zero = λ method path body wants s. none
  req (suc fuel) = request_step (req fuel)

  -- `CreateSession`, `RefreshTicket`, and `Login`, which sets no expiry.
  unfoldable pub create_session : ℕ → Action (Unit {0})
  unfolding create_session_with
  create_session fuel = create_session_with (req fuel)

  unfoldable pub refresh_ticket : ℕ → Action (Unit {0})
  refresh_ticket fuel = refresh_ticket_with env (req fuel)

  unfoldable pub login : ℕ → Text → Text → Action (Unit {0})
  login fuel username password = ticket_with env (req fuel) (
      some (record {
        username = username;
        password = password;
        otp = [];
        path = [];
        privs = [];
        realm = [];
      }))

  -- `Get`, `Post`, `Put` and `Delete`; `d` is the marshalled body, and `wants` is `v != nil`.
  unfoldable pub get : ℕ → Text → Bool → Action (Option Json)
  get fuel p wants = req fuel (codes "GET") p none wants

  unfoldable pub post : ℕ → Text → Option Json → Bool → Action (Option Json)
  post fuel p d wants =
      req fuel (codes "POST") p (elim d [ none ↦ none | some j ↦ some (env.render j) ]) wants

  unfoldable pub put : ℕ → Text → Option Json → Bool → Action (Option Json)
  put fuel p d wants =
      req fuel (codes "PUT") p (elim d [ none ↦ none | some j ↦ some (env.render j) ]) wants

  unfoldable pub delete : ℕ → Text → Bool → Action (Option Json)
  delete fuel p wants = req fuel (codes "DELETE") p none wants
