-- ===== src/Session/Sent/Refused.antt =====
-- Which requests a call of `Req` makes after a refusal, and in all.
use Prim.Native.Nat.{zero, suc}
use go_proxmox.Prelude.{
  ℕ, ◌≡◌, inl, inr, Bool, false, Option, none, some, [], ◌++◌, sym, Bool-cases, is_some, subst,
}
use go_proxmox.Prelude.Text.{Text, codes, has_prefix, text_eq}
use go_proxmox.Errors.{Result, ok, err}
use go_proxmox.World.{Env}
use go_proxmox.Client.{State}
use go_proxmox.Client.Always.{Always, Always-bind, Always-mono, Always-try}
use go_proxmox.Session.{Requester, full_url, is_refusal, ticket_path, exchange}
use go_proxmox.Session.Req.{req, create_session_with, again_with, refused_with, request_step}
use go_proxmox.Session.Sent.{
  Since-trans, Since-mono, IsPlain, Emitted, Emits, Obeys, url_at, IsRequest, IsLogin, IsOf,
  again_url, exchange-Emitted,
}
use go_proxmox.Session.Sent.Login.{create_session-Emits}
use go_proxmox.Session.Bound.{req-ends}
use go_proxmox.Session.Steps.{DecodesSession, IsTimely}
use go_proxmox.Client.Ends.{Ends}

module _ (env : Env) (base : Text) (is_url : has_prefix base (codes "/") ≡ false) where
  module _ (rq : Requester) (obeys : Obeys base rq) where
    again-Emits :
        (method path : Text) (body : Option Text) (wants : Bool) (s : State) (r : Result (Unit {0}))
        (t : State)
        → Emitted (IsOf base method (url_at base path) body) base s t
        → Always
            (again_with env rq method (url_at base path) body wants r t)
            (Emits base (IsOf base method (url_at base path) body) s)
    unfolding again_with
    again-Emits method path body wants s (err e) t h = h
    again-Emits method path body wants s (ok _) t h =
        Always-mono _ (Emits base (IsOf base method (url_at base (url_at base path)) body) t)
          (Emits base (IsOf base method (url_at base path) body) s)
          (obeys method (url_at base path) body wants t h.0)
          (λ r u p. (p.0, Since-trans h.1 (rw (again_url base path is_url) at p).1))

    refused-Emits :
        (method path : Text) (body : Option Text) (wants : Bool) (s t : State)
        → Emitted (IsOf base method (url_at base path) body) base s t
        → Always
            (refused_with env rq method (url_at base path) body wants t)
            (Emits base (IsOf base method (url_at base path) body) s)
    unfolding refused_with
    refused-Emits method path body wants s t h =
        elim (Bool-cases (text_eq (url_at base path) (t.client.base_url ++ ticket_path))) [
          | inl e ↦ rw e h
          | inr e ↦ rw e (elim (Bool-cases (is_some t.client.credentials)) [
            | inr unknown ↦ rw unknown h
            | inl known ↦ rw known (
                Always-try (create_session_with env rq) _ t (Emits base (IsLogin base) t)
                  (Emits base (IsOf base method (url_at base path) body) s)
                  (create_session-Emits env base rq obeys t h.0)
                  (λ r u q.
                    again-Emits method path body wants s r u
                      (q.0, Since-trans h.1 (Since-mono (λ e l. inr l) q.1))))
          ])
        ]

    step-Emits : Obeys base (request_step env rq)
    unfolding request_step
    step-Emits method path body wants s h =
        Always-bind (exchange env method (full_url s.client path) body) _ s
          (Emits base (IsOf base method (url_at base path) body) s)
          (Emits base (IsOf base method (url_at base path) body) s)
          (subst
            (λ b.
              Always (exchange env method (url_at b path) body s)
                (Emits base (IsOf base method (url_at base path) body) s))
            (sym h.0)
            (Always-mono _ (Emits base (IsRequest method (url_at base path) body) s)
              (Emits base (IsOf base method (url_at base path) body) s)
              (exchange-Emitted env base method (url_at base path) body s h)
              (λ r t q. (q.0, Since-mono (λ e l. inl l) q.1))))
          (λ res t q. elim (Bool-cases (is_refusal res.code)) [
            | inl e ↦ rw e (
                subst
                  (λ b.
                    Always (refused_with env rq method (url_at b path) body wants t)
                      (Emits base (IsOf base method (url_at base path) body) s))
                  (sym h.0) (refused-Emits method path body wants s t q))
            | inr e ↦ rw e q
          ])
          (λ e t q. q)

  req-Emits : (fuel : ℕ) → Obeys base (req env fuel)
  unfolding req
  req-Emits zero method path body wants s h = tt
  req-Emits (suc fuel) method path body wants s h =
      step-Emits (req env fuel) (req-Emits fuel) method path body wants s h

  both :
      {A : Type 0} (o : Option (Result A × State)) (P Q R : Result A → State → Type 0)
      → ((r : Result A) (t : State) → P r t → Q r t → R r t)
      → Ends o P
      → Always o Q
      → Ends o R
  both none P Q R f h k = h
  both (some (r, t)) P Q R f h k = f r t h k

  -- Where no login is accepted with null for a session, every other value that decodes gives one,
  -- and the clock moves less than an hour, a call of Req of a client that has no interceptors and
  -- whose address does not begin with a slash ends, and makes no requests but its own, with its
  -- method, its body and the URL of its path, and logins, which are POSTs to the ticket path of the
  -- client's address.
  pub req-Sends :
      (start : ℕ)
      → DecodesSession env
      → IsTimely start env
      → (f : ℕ) (method path : Text) (body : Option Text) (wants : Bool) (s : State)
      → IsPlain base s
      → Ends
          (req env (suc (suc f)) method path body wants s)
          (Emits base (IsOf base method (url_at base path) body) s)
  req-Sends start decodes timely f method path body wants s h =
      both _ _ (Emits base (IsOf base method (url_at base path) body) s) _ (λ r t _ q. q)
        (req-ends env [] start decodes timely f method path body wants s h.1)
        (req-Emits (suc (suc f)) method path body wants s h)
