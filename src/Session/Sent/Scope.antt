-- ===== src/Session/Sent/Scope.antt =====
-- Calls whose requests stay under a path.
use Prim.Native.Nat.{suc}
use go_proxmox.Prelude.{
  ℕ, ◌≡◌, refl, ◌⊎◌, inl, inr, Bool, true, false, Option, [], ◌∷◌, ◌++◌, ap, ◌∙◌,
}
use go_proxmox.Prelude.Text.{Text, codes, has_prefix}
use go_proxmox.Errors.{Result}
use go_proxmox.World.{Event, sent, slept, Env}
use go_proxmox.Client.{State, Action, ◌>>=◌, pure, lift}
use go_proxmox.Client.Ends.{Ends, Ends-bind, Ends-mono, Ends-lift}
use go_proxmox.Session.Steps.{DecodesSession, IsTimely}
use go_proxmox.Session.Sent.{Since-mono, IsPlain, Emitted, Emits, IsOf, IsLogin, url_at}
use go_proxmox.Session.Sent.Refused.{req-Sends}
use go_proxmox.Session.Req.{req}

-- What stands behind a path that is kept: nothing, a further part, or a query.
abbrev pub Starts : Text → Type 0
Starts [] = Unit
Starts (c ∷ _) = (c ≡ b'/') ⊎ (c ≡ b'?')

-- A request with the method, for the root or something under it.
abbrev pub IsUnder : Text → Text → Text → Event → Type 0
IsUnder base root method (sent r) =
    (r.method ≡ method) × ((rest : Text) × (r.url ≡ base ++ (root ++ rest)) × Starts rest)
IsUnder base root method (slept _) = ⊥

-- Such a request, or a login.
abbrev pub IsWithin : Text → Text → Text → Event → Type 0
IsWithin base root method e = IsUnder base root method e ⊎ IsLogin base e

abbrev pub IsRooted : Text → Type 0
IsRooted root = has_prefix root (codes "/") ≡ true

-- A path is the root, or one under it.
abbrev pub IsAt : Text → Text → Type 0
IsAt root path = (rest : Text) × (path ≡ root ++ rest) × Starts rest

prefix_append : (root rest : Text) → IsRooted root → IsRooted (root ++ rest)
unfolding has_prefix
prefix_append [] rest h = cc
prefix_append (c ∷ root) rest h = h

of-IsWithin :
    (base root path method : Text) (body : Option Text)
    → IsRooted root
    → IsAt root path
    → (e : Event) → IsOf base method (url_at base path) body e
    → IsWithin base root method e
of-IsWithin base root path method body rooted (rest, at, ends) (sent r) (inl h) =
    inl (h.0, (rest, h.1 ∙ ap (url_at base) at ∙ rw (prefix_append root rest rooted) refl, ends))
of-IsWithin base root path method body rooted at (sent r) (inr h) = inr h
of-IsWithin base root path method body rooted at (slept d) (inl h) = absurd h
of-IsWithin base root path method body rooted at (slept d) (inr h) = absurd h

module _ (env : Env) (start : ℕ) (decodes : DecodesSession env) (timely : IsTimely start env)
    (base : Text) (is_url : has_prefix base (codes "/") ≡ false) (f : ℕ) (root : Text)
    (rooted : IsRooted root) where
  abbrev pub EndsWithin : {A : Type 0} → Text → Action A → Type 0
  EndsWithin method m =
      (s : State) → IsPlain base s → Ends (m s) (Emits base (IsWithin base root method) s)

  pub req-within :
      (method path : Text) (body : Option Text) (wants : Bool)
      → IsAt root path
      → EndsWithin method (req env (suc (suc f)) method path body wants)
  req-within method path body wants at s h =
      Ends-mono _ (Emits base (IsOf base method (url_at base path) body) s)
        (Emits base (IsWithin base root method) s)
        (req-Sends env base is_url start decodes timely f method path body wants s h)
        (λ r t q. (q.0, Since-mono (of-IsWithin base root path method body rooted at) q.1))

  pub lift-within :
      {A B : Type 0} (method : Text) (m : Action A) (k : A → Result B)
      → EndsWithin method m
      → EndsWithin method (m >>= λ a. lift (k a))
  lift-within method m k g s h =
      Ends-lift m k s (Emitted (IsWithin base root method) base s) (g s h)

  pub pure-within :
      {A B : Type 0} (method : Text) (m : Action A) (k : A → B)
      → EndsWithin method m
      → EndsWithin method (m >>= λ a. pure (k a))
  pure-within method m k g s h =
      Ends-bind m (λ a. pure (k a)) s (Emits base (IsWithin base root method) s)
        (Emits base (IsWithin base root method) s) (g s h) (λ a t q. q) (λ e t q. q)
