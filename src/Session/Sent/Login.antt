-- ===== src/Session/Sent/Login.antt =====
-- Which requests a login and a renewal make.
use go_proxmox.Prelude.{inl, inr, true, Option, none, some, Bool-cases, Option-cases, is_some, ◌&&◌}
use go_proxmox.Prelude.Text.{Text, codes, has_prefix, is_empty}
use go_proxmox.Errors.{Result, ok, err}
use go_proxmox.Json.{Json}
use go_proxmox.World.{Credentials, Session, Event, sent, slept, Env}
use go_proxmox.Client.{State, ◌>>=◌}
use go_proxmox.Client.Always.{Always, Always-bind, Always-mono, Always-try}
use go_proxmox.Session.{
  Requester, ticket_path, decode_ticket, ticket_with, extend_session, renew_with,
  refresh_ticket_with, session_credentials,
}
use go_proxmox.Session.Req.{has_live_session, create_session_with, or_log_in_with, log_in_with}
use go_proxmox.Session.Sent.{
  same, Since-trans, Since-mono, IsPlain, Emitted, Emits, Obeys, url_at, IsLogin, IsOf,
}

module _ (env : Env) (base : Text) (rq : Requester) (obeys : Obeys base rq) where
  only-IsLogin :
      (body : Option Text) (e : Event)
      → IsOf base (codes "POST") (url_at base ticket_path) body e
      → IsLogin base e
  unfolding has_prefix
  only-IsLogin body (sent r) (inl h) = (h.0, h.1)
  only-IsLogin body (sent r) (inr h) = h
  only-IsLogin body (slept d) (inl h) = h
  only-IsLogin body (slept d) (inr h) = h

  decode-Emits :
      (P : Event → Type 0) (s t : State) (a : Option Json)
      → Emitted P base s t
      → Always (decode_ticket env a t) (Emits base P s)
  unfolding decode_ticket
  decode-Emits P s t none h = h
  decode-Emits P s t (some v) h = elim (Option-cases (env.decode_session t.client.session v).0) [
    | inl e ↦ rw (e, Always) h
    | inr (x, e) ↦ rw (e, Always) h
  ]

  ticket-Emits :
      (c : Option Credentials) (s : State)
      → IsPlain base s
      → Always (ticket_with env rq c s) (Emits base (IsLogin base) s)
  unfolding ticket_with
  ticket-Emits c s h =
      Always-bind (rq (codes "POST") ticket_path _ true) (decode_ticket env) s
        (Emits base (IsLogin base) s) (Emits base (IsLogin base) s)
        (Always-mono _ (Emits base (IsOf base (codes "POST") (url_at base ticket_path) _) s)
          (Emits base (IsLogin base) s) (obeys (codes "POST") ticket_path _ true s h)
          (λ r t q. (q.0, Since-mono (only-IsLogin _) q.1)))
        (λ a t q. decode-Emits (IsLogin base) s t a q) (λ e t q. q)

  log_in_for :
      (c : Option Credentials) (s : State)
      → IsPlain base s
      → Always ((ticket_with env rq c >>= λ _. extend_session env) s) (Emits base (IsLogin base) s)
  unfolding extend_session
  log_in_for c s h =
      Always-bind (ticket_with env rq c) (λ _. extend_session env) s (Emits base (IsLogin base) s)
        (Emits base (IsLogin base) s) (ticket-Emits c s h) (λ a t q. q) (λ e t q. q)

  renew-Emits :
      (old : Option Session) (s : State)
      → IsPlain base s
      → Always (renew_with env rq old s) (Emits base (IsLogin base) s)
  unfolding renew_with
  renew-Emits none s h = (h, same)
  renew-Emits (some old) s h = elim (Bool-cases (is_empty old.ticket)) [
    | inl e ↦ rw e (h, same)
    | inr e ↦ rw e (log_in_for _ s h)
  ]

  credentials-Emits :
      (s : State)
      → IsPlain base s
      → Always (session_credentials env s) (Emits base (IsLogin base) s)
  unfolding session_credentials
  credentials-Emits s h = elim (Option-cases s.client.credentials) [
    | inl e ↦ rw e (h, same)
    | inr (c, e) ↦
        rw e (elim (Bool-cases (is_empty s.client.otp && is_empty s.client.default_realm)) [
          | inl k ↦ rw k (h, same)
          | inr k ↦ rw k (h, same)
        ])
  ]

  log_in-Emits :
      (s : State) → IsPlain base s → Always (log_in_with env rq s) (Emits base (IsLogin base) s)
  unfolding log_in_with
  log_in-Emits s h =
      Always-bind (session_credentials env) _ s (Emits base (IsLogin base) s)
        (Emits base (IsLogin base) s) (credentials-Emits s h)
        (λ c t q.
          Always-mono _ (Emits base (IsLogin base) t) (Emits base (IsLogin base) s)
            (log_in_for c t q.0) (λ r u p. (p.0, Since-trans q.1 p.1)))
        (λ e t q. q)

  or_log_in-Emits :
      (s : State) (r : Result (Unit {0})) (t : State)
      → Emitted (IsLogin base) base s t
      → Always (or_log_in_with env rq r t) (Emits base (IsLogin base) s)
  unfolding or_log_in_with
  or_log_in-Emits s (ok _) t h = h
  or_log_in-Emits s (err _) t h =
      Always-mono _ (Emits base (IsLogin base) t) (Emits base (IsLogin base) s) (log_in-Emits t h.0)
        (λ r u p. (p.0, Since-trans h.1 p.1))

  pub create_session-Emits :
      (s : State)
      → IsPlain base s
      → Always (create_session_with env rq s) (Emits base (IsLogin base) s)
  unfolding create_session_with refresh_ticket_with
  create_session-Emits s h = elim (Bool-cases (has_live_session env s)) [
    | inl e ↦ rw e (h, same)
    | inr e ↦ rw e (elim (Bool-cases (is_some s.client.session)) [
      | inl old ↦ rw old (
          Always-try (refresh_ticket_with env rq) (or_log_in_with env rq) s
            (Emits base (IsLogin base) s) (Emits base (IsLogin base) s)
            (renew-Emits s.client.session s h) (λ r t q. or_log_in-Emits s r t q))
      | inr fresh ↦ rw fresh (log_in-Emits s h)
    ])
  ]
