-- ===== src/Access/Domains.antt =====
-- The guard of a domain's calls.
use Prim.Native.Nat.{suc}
use go_proxmox.Prelude.{
  ℕ, ◌+◌, ◌≤◌, ◌≡◌, refl, Option, none, if◌then◌else◌, inl, inr, Bool-cases, length, List, true,
  false,
}
use go_proxmox.Prelude.Text.{Text, codes, is_empty}
use go_proxmox.Errors.{Result, err}
use go_proxmox.Json.{Json}
use go_proxmox.World.{Env}
use go_proxmox.Client.{Interceptor, State}
use go_proxmox.Client.Ends.{Ends, Ends-mono}
use go_proxmox.Session.Steps.{DecodesSessionFor, IsTimely}
use go_proxmox.Session.Req.{req, put, post, delete}
use go_proxmox.Session.Bound.{req-ends}
use go_proxmox.Access.{Entity, Fields, domain_update, domain_delete, domain_sync, no_realm}

module _ (env : Env) (start : ℕ) (fns : List (Option Interceptor))
    (decodes : DecodesSessionFor fns env) (timely : IsTimely start env) (lib : Fields) where
  -- No request is made for a domain without a realm, and at most four for another.
  abbrev pub Guarded : Entity → State → Result (Option Json) → State → Type 0
  Guarded d s r t =
      if is_empty d.key
      then (r ≡ err (no_realm env 0 lib)) × (t ≡ s)
      else (length t.past ≤ length s.past + 4)

  without_realm :
      (d : Entity) (s : State) → is_empty d.key ≡ true → Guarded d s (err (no_realm env 0 lib)) s
  without_realm d s e = rw e (refl, refl)

  with_realm :
      (f : ℕ) (d : Entity) (method path : Text) (body : Option Text) (s : State)
      → s.client.interceptors ≡ fns
      → is_empty d.key ≡ false
      → Ends (req env (suc (suc f)) method path body false s) (Guarded d s)
  with_realm f d method path body s kept e =
      Ends-mono _ (λ _ t. length t.past ≤ length s.past + 4) (Guarded d s)
        (req-ends env fns start decodes timely f method path body false s kept) (λ r t q. rw e q)

  -- The update, the deletion and the synchronisation of a domain end. Without a realm each is an
  -- error that makes no request and leaves the client as it was; with a realm, where no login is
  -- accepted with null for a session, every other value that decodes gives one, and the clock moves
  -- less than an hour, each makes at most four requests.
  pub domain_calls_end :
      (f : ℕ) (d : Entity) (options : Json) (s : State)
      → s.client.interceptors ≡ fns
      → Ends (domain_update env (suc (suc f)) lib d s) (Guarded d s)
        × Ends (domain_delete env (suc (suc f)) lib d s) (Guarded d s)
        × Ends (domain_sync env (suc (suc f)) lib d options s) (Guarded d s)
  unfolding domain_update domain_delete domain_sync put delete post
  domain_calls_end f d options s kept = elim (Bool-cases (is_empty d.key)) [
    | inl e ↦ let g = without_realm d s e in rw e (g, g, g)
    | inr e ↦ rw e (
      with_realm f d (codes "PUT") _ _ s kept e,
      with_realm f d (codes "DELETE") _ none s kept e,
      with_realm f d (codes "POST") _ _ s kept e,
    )
  ]
