-- ===== src/Session/Bound.antt =====
-- How many requests one call of `Req` makes, and that it ends.
use Prim.Native.Nat.{suc}
use go_proxmox.Prelude.{
  ℕ, ◌+◌, ◌≤◌, ◌≡◌, Bool, true, Option, some, ◌++◌, arith, length, is_some, lt→ltb, ltb, Bool-cases,
  List, ap, ◌∙◌, inl, inr,
}
use go_proxmox.Prelude.Text.{Text, text_eq}
use go_proxmox.Errors.{sentinel, session_exists, Result, ok, err}
use go_proxmox.Json.{Json}
use go_proxmox.World.{Env}
use go_proxmox.Client.{Interceptor, State, ◌>>=◌, try}
use go_proxmox.Client.Ends.{Ends, Ends-bind, Ends-mono, Ends-try}
use go_proxmox.Session.{Requester, is_refusal, ticket_path, exchange}
use go_proxmox.Errors.{not_authorized, errors_is}
use go_proxmox.Session.Req.{req, create_session_with, again_with, refused_with, request_step}
use go_proxmox.Session.Steps.{
  Quiet, IsLive, Renewed, Within, DecodesSessionFor, IsTimely, exchange-Quiet, create_session-ends,
}

abbrev AtMost : ℕ → State → Result (Option Json) → State → Type 0
AtMost k s r t = length t.past ≤ length s.past + k

module _ (env : Env) (fns : List (Option Interceptor)) (start : ℕ)
    (decodes : DecodesSessionFor fns env) (timely : IsTimely start env) where
  -- With a live session there is nothing to create.
  create_session_live :
      (rq : Requester) (s : State)
      → IsLive start s.client
      → create_session_with env rq s ≡ some (err (sentinel session_exists), s)
  unfolding create_session_with
  create_session_live rq s (there, late) =
      let now_before : ltb (env.now s.past) s.client.session_expires_at ≡ true =
        lt→ltb _ _ (omega (arith, timely s.past)) in
      rw (there, now_before)

  -- With a live session a refusal is final.
  refused_live :
      (rq : Requester) (method url : Text) (body : Option Text) (wants : Bool) (s : State)
      → IsLive start s.client
      → refused_with env rq method url body wants s ≡ some (err (sentinel not_authorized), s)
  unfolding refused_with errors_is
  refused_live rq method url body wants s live =
      let exists = create_session_live rq s live in
      elim (Bool-cases (text_eq url (s.client.base_url ++ ticket_path))) [
        | inl e ↦ rw e
        | inr e ↦ rw e (elim (Bool-cases (is_some s.client.credentials)) [
          | inl known ↦ rw known (rw (exists, ◌>>=◌, try))
          | inr unknown ↦ rw unknown
        ])
      ]

  req_live-ends :
      (f : ℕ) (method path : Text) (body : Option Text) (wants : Bool) (s : State)
      → IsLive start s.client
      → Ends (req env (suc f) method path body wants s) (AtMost 1 s)
  unfolding req request_step
  req_live-ends f method path body wants s live =
      Ends-bind (exchange env method _ body) _ s (Quiet 1 s) (AtMost 1 s)
        (exchange-Quiet env method _ body s)
        (λ res t q. elim (Bool-cases (is_refusal res.code)) [
          | inl e ↦ rw e (rw (refused_live (req env f) method _ body wants t (rw q.0 live)) (q.1))
          | inr e ↦ rw e (q.1)
        ])
        (λ e t q. q.1)

  again-ends :
      (f : ℕ) (method url : Text) (body : Option Text) (wants : Bool) (s : State)
      (r : Result (Unit {0})) (t : State)
      → Within (Renewed start) 2 s r t
      → Ends (again_with env (req env (suc f)) method url body wants r t) (AtMost 3 s)
  unfolding again_with
  again-ends f method url body wants s (err e) t q = omega arith
  again-ends f method url body wants s (ok _) t q =
      Ends-mono _ (AtMost 1 t) (AtMost 3 s) (req_live-ends f method url body wants t q.1)
        (λ r u p. omega arith)

  refused-ends :
      (f : ℕ) (method url : Text) (body : Option Text) (wants : Bool) (s : State)
      → s.client.interceptors ≡ fns
      → Ends (refused_with env (req env (suc f)) method url body wants s) (AtMost 3 s)
  unfolding refused_with
  refused-ends f method url body wants s kept =
      elim (Bool-cases (text_eq url (s.client.base_url ++ ticket_path))) [
        | inl e ↦ rw e (omega arith)
        | inr e ↦ rw e (elim (Bool-cases (is_some s.client.credentials)) [
          | inl known ↦ rw known (
              Ends-try (create_session_with env (req env (suc f))) _ s (Within (Renewed start) 2 s)
                (AtMost 3 s) (create_session-ends env fns start decodes timely f s kept)
                (again-ends f method url body wants s))
          | inr unknown ↦ rw unknown (omega arith)
        ])
      ]

  -- Where no login is accepted with null for a session, every other value that decodes gives one,
  -- and the clock moves less than an hour, a call of Req ends with two levels of recursion, after
  -- at most four requests.
  pub req-ends :
      (f : ℕ) (method path : Text) (body : Option Text) (wants : Bool) (s : State)
      → s.client.interceptors ≡ fns
      → Ends
          (req env (suc (suc f)) method path body wants s)
          (λ r t. length t.past ≤ length s.past + 4)
  unfolding req request_step
  req-ends f method path body wants s kept =
      Ends-bind (exchange env method _ body) _ s (Quiet 1 s) (AtMost 4 s)
        (exchange-Quiet env method _ body s)
        (λ res t q. elim (Bool-cases (is_refusal res.code)) [
          | inl e ↦ rw e (
              Ends-mono _ (AtMost 3 t) (AtMost 4 s)
                (refused-ends f method _ body wants t (ap (λ c. c.interceptors) q.0 ∙ kept))
                (λ r u p. omega arith))
          | inr e ↦ rw e (omega arith)
        ])
        (λ e t q. omega arith)
