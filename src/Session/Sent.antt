-- ===== src/Session/Sent.antt =====
-- Which requests a call of `Req` makes.
pub mod Login
pub mod Refused
pub mod Scope
use Prim.Native.Nat.{zero, suc}
use go_proxmox.Prelude.{
  ℕ, ◌≡◌, refl, ◌⊎◌, inl, inr, Bool, true, false, Option, none, some, List, [], ◌∷◌, ◌++◌, arith,
  ap, sym, ◌∙◌, All, All-append, Bool-cases, Option-cases, if◌then◌else◌, is_some, subst, ◌&&◌,
}
use go_proxmox.Prelude.Text.{Text, codes, has_prefix, text_eq, is_empty}
use go_proxmox.Errors.{Error, Result, ok, err}
use go_proxmox.Json.{Json}
use go_proxmox.World.{Request, Response, Credentials, Session, Event, History, sent, slept, Env}
use go_proxmox.Client.{Interceptor, State, Action, ◌>>=◌, try}
use go_proxmox.Client.Always.{Always, Always-bind, Always-mono, Always-try}
use go_proxmox.Session.{
  Requester, full_url, is_refusal, ticket_path, exchange, send, run_interceptors, decode_ticket,
  ticket_with, extend_session, renew_with, refresh_ticket_with, session_credentials,
}
use go_proxmox.Session.Req.{
  req, has_live_session, create_session_with, or_log_in_with, log_in_with, again_with, refused_with,
  request_step,
}

-- From the history `h` on, only events of `P` happened.
pub data Since (P : Event → Type 0) : History → History → Type 0 where
  same : {h : History} → Since P h h
  later : {h h' : History} {e : Event} → P e → Since P h h' → Since P h (e ∷ h')

pub Since-trans : {P : Event → Type 0} {a b c : History} → Since P a b → Since P b c → Since P a c
Since-trans h same = h
Since-trans h (later p k) = later p (Since-trans h k)

pub Since-mono :
    {P Q : Event → Type 0} {a b : History} → ((e : Event) → P e → Q e) → Since P a b → Since Q a b
Since-mono f same = same
Since-mono f (later {e = e} p k) = later (f e p) (Since-mono f k)

-- The client's address, and no interceptors, which could send a request elsewhere.
abbrev pub IsPlain : Text → State → Type 0
IsPlain base s = (s.client.base_url ≡ base) × (s.client.interceptors ≡ [])

abbrev pub Emitted : (Event → Type 0) → Text → State → State → Type 0
Emitted P base s t = IsPlain base t × Since P s.past t.past

abbrev pub url_at : Text → Text → Text
url_at base path = if has_prefix path (codes "/") then base ++ path else path

abbrev pub IsRequest : Text → Text → Option Text → Event → Type 0
IsRequest method url body (sent r) = (r.method ≡ method) × (r.url ≡ url) × (r.body ≡ body)
IsRequest method url body (slept _) = ⊥

abbrev pub IsLogin : Text → Event → Type 0
IsLogin base (sent r) = (r.method ≡ codes "POST") × (r.url ≡ base ++ ticket_path)
IsLogin base (slept _) = ⊥

-- The request of a call, or a login.
abbrev pub IsOf : Text → Text → Text → Option Text → Event → Type 0
IsOf base method url body e = IsRequest method url body e ⊎ IsLogin base e

first_prefix :
    (c : ℕ) (x y : Text) → has_prefix (c ∷ x) (codes "/") ≡ has_prefix (c ∷ y) (codes "/")
unfolding has_prefix
first_prefix c x y = refl

pub again_url :
    (base path : Text)
    → has_prefix base (codes "/") ≡ false
    → url_at base (url_at base path) ≡ url_at base path
again_url [] path h = elim (Bool-cases (has_prefix path (codes "/"))) [
  | inl e ↦ rw (e, e)
  | inr e ↦ rw (e, e)
]
again_url (c ∷ base) path h = elim (Bool-cases (has_prefix path (codes "/"))) [
  | inl e ↦ rw e (rw (first_prefix c (base ++ path) base ∙ h))
  | inr e ↦ rw (e, e)
]

abbrev pub Emits : Text → {A : Type 0} → (Event → Type 0) → State → Result A → State → Type 0
Emits base P s r t = Emitted P base s t

-- What a requester sends.
abbrev pub Obeys : Text → Requester → Type 0
Obeys base rq =
    (method path : Text) (body : Option Text) (wants : Bool) (s : State)
    → IsPlain base s
    → Always (rq method path body wants s) (Emits base (IsOf base method (url_at base path) body) s)

module _ (env : Env) (base : Text) where
  pub exchange-Emitted :
      (method url : Text) (body : Option Text) (s : State)
      → IsPlain base s
      → Always
          (exchange env method url body s)
          (λ _ t. Emitted (IsRequest method url body) base s t)
  unfolding exchange send run_interceptors
  exchange-Emitted method url body s (at, none_there) =
      elim (Option-cases (env.request_error method url)) [
        | inl e ↦ rw e (rw none_there ((at, refl), later (refl, refl, refl) same))
        | inr (x, e) ↦ rw e ((at, none_there), same)
      ]
