-- ===== src/Firewall/Place.antt =====
-- Where the calls of a rule go.
use Prim.Native.Nat.{suc}
use go_proxmox.Prelude.{
  ℕ, ◌≡◌, refl, true, false, Option, none, some, ◌++◌, ap, sym, append_assoc, subst, if◌then◌else◌,
  Bool-cases, inl, inr,
}
use go_proxmox.Prelude.Text.{Text, codes, has_prefix}
use go_proxmox.Errors.{err}
use go_proxmox.Errors.Decimal.{decimal}
use go_proxmox.World.{Env}
use go_proxmox.Client.{State, Action}
use go_proxmox.Client.Ends.{Ends, Ends-lift}
use go_proxmox.Session.Steps.{DecodesSession, IsTimely}
use go_proxmox.Session.Sent.{IsPlain, Emitted, Emits, IsOf, url_at}
use go_proxmox.Session.Sent.Refused.{req-Sends}
use go_proxmox.Session.Req.{req, get, put, delete}
use go_proxmox.Firewall.{
  FirewallRule, RuleLib, Owner, of_node, of_qemu, of_lxc, owner_path, wired, rule_path, rule_get,
  rule_update, rule_delete, get_at, update_at, delete_at, no_parent, kind_unknown,
}

-- The path of the rule at a position of an owner.
abbrev pub place_of : Owner → ℕ → Text
place_of o pos = owner_path o ++ (codes "/firewall/rules/" ++ decimal pos)

pub rule_path-wired :
    (o : Owner) (r : FirewallRule) → rule_path (wired o r) ≡ some (place_of o r.position)
unfolding rule_path wired
rule_path-wired (of_node n) r = refl
rule_path-wired (of_qemu n i) r =
    ap (λ p. some (codes "/nodes/" ++ p))
      (sym (
        append_assoc n (codes "/qemu/" ++ decimal i)
          (codes "/firewall/rules/" ++ decimal r.position)))
rule_path-wired (of_lxc n i) r =
    ap (λ p. some (codes "/nodes/" ++ p))
      (sym (
        append_assoc n (codes "/lxc/" ++ decimal i)
          (codes "/firewall/rules/" ++ decimal r.position)))

nowhere :
    (r : FirewallRule)
    → (if r.has_client then (r.kind ≡ kind_unknown) else Unit)
    → rule_path r ≡ none
unfolding rule_path
nowhere r h = elim (Bool-cases r.has_client) [
  | inr e ↦ rw e refl
  | inl e ↦ rw e (rw (rw e at h) refl)
]

-- A call ends, and sends this request and logins only.
abbrev pub SendsOnly : Text → {A : Type 0} → Text → Text → Option Text → Action A → State → Type 0
SendsOnly base method path body m s =
    Ends (m s) (Emits base (IsOf base method (url_at base path) body) s)

module _ (env : Env) (start : ℕ) (decodes : DecodesSession env) (timely : IsTimely start env)
    (base : Text) (is_url : has_prefix base (codes "/") ≡ false) (f : ℕ) (lib : RuleLib) where
  -- Get, Update and Delete of a rule that a node, a virtual machine or a container has made its own
  -- end, and send a GET, a PUT with the rule, and a DELETE, to the path of that owner's rule at the
  -- rule's position, and logins, and nothing else; where no login is accepted with null for a
  -- session, every other value that decodes gives one, the clock moves less than an hour, and the
  -- client has no interceptors and an address that does not begin with a slash.
  pub rule_calls-SendsOnly :
      (o : Owner) (r : FirewallRule) (s : State)
      → IsPlain base s
      → SendsOnly base
          (codes "GET")
          (place_of o r.position)
          none
          (rule_get env (suc (suc f)) lib (wired o r))
          s
        × SendsOnly base
            (codes "PUT")
            (place_of o r.position)
            (some (env.render (lib.encode (wired o r))))
            (rule_update env (suc (suc f)) lib (wired o r))
            s
        × SendsOnly base
            (codes "DELETE")
            (place_of o r.position)
            none
            (rule_delete env (suc (suc f)) lib (wired o r))
            s
  unfolding rule_get rule_update rule_delete get put delete
  rule_calls-SendsOnly o r s h =
      let sends = req-Sends env base is_url start decodes timely f in
      let at = sym (rule_path-wired o r) in
      let q = wired o r in
      let place = place_of o r.position in
      (
        subst (λ p. SendsOnly base (codes "GET") place none (get_at env (suc (suc f)) lib q p) s) at
            (Ends-lift (req env (suc (suc f)) (codes "GET") place none true) _ s
              (Emitted (IsOf base (codes "GET") (url_at base place) none) base s)
              (sends (codes "GET") place none true s h)),
        subst
            (λ p.
              SendsOnly base (codes "PUT") place (some (env.render (lib.encode q)))
                (update_at env (suc (suc f)) lib q p) s)
            at (sends (codes "PUT") place _ false s h),
        subst
            (λ p. SendsOnly base (codes "DELETE") place none (delete_at env (suc (suc f)) lib p) s)
            at (sends (codes "DELETE") place none false s h),
      )

-- A rule without a client, or of an unknown kind, is an error that makes no request.
pub rule_calls_without_parent :
    (env : Env) (calls : ℕ) (lib : RuleLib) (r : FirewallRule) (s : State)
    → (if r.has_client then (r.kind ≡ kind_unknown) else Unit)
    → (rule_get env calls lib r s ≡ some (err no_parent, s))
      × (rule_update env calls lib r s ≡ some (err no_parent, s))
      × (rule_delete env calls lib r s ≡ some (err no_parent, s))
unfolding rule_get rule_update rule_delete
rule_calls_without_parent env calls lib r s h =
    let none_there = nowhere r h in
    (
      ap (λ p. get_at env calls lib r p s) none_there,
      ap (λ p. update_at env calls lib r p s) none_there,
      ap (λ p. delete_at env calls lib p s) none_there,
    )
