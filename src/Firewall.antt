-- ===== src/Firewall.antt =====
-- types.go: `FirewallRule` with its calls, and the parents that make rules and list them (nodes.go,
-- virtual_machine.go, containers.go).
pub mod Place
pub mod Params
pub mod Sets
mod Tests
use go_proxmox.Prelude.{
  ℕ, Bool, true, false, Option, none, some, List, [], ◌∷◌, ◌++◌, if◌then◌else◌, map, ◌==◌,
}
use go_proxmox.Prelude.Text.{Text, codes}
use go_proxmox.Prelude.Int.{ℤ}
use go_proxmox.Errors.{Error, message, Result, ok, err}
use go_proxmox.Errors.Decimal.{decimal}
use go_proxmox.Json.{Json}
use go_proxmox.World.{Env}
use go_proxmox.Client.{Action, ◌>>=◌, ◌>>◌, pure, raise, lift}
use go_proxmox.Session.Req.{get, post, put, delete}

-- `fwRuleKind`.
pub data FwRuleKind : Type 0 where
  kind_unknown : FwRuleKind
  kind_node : FwRuleKind
  kind_qemu : FwRuleKind
  kind_lxc : FwRuleKind

-- `FirewallRule`: whether it has a client, its owner and its position, and its other fields as JSON.
pub record FirewallRule : Type 0 where
  pub has_client : Bool
  pub kind : FwRuleKind
  pub node : Text
  pub vmid : ℕ
  pub position : ℕ
  pub fields : Json

-- encoding/json: a rule as a body, a rule's answer onto the rule, and a list of rules.
pub record RuleLib : Type 0 where
  pub encode : FirewallRule → Json
  pub decode : FirewallRule → Json → Result FirewallRule
  pub decode_list : Json → Result (List FirewallRule)

-- A node, a virtual machine or a container, as the owner of rules.
pub data Owner : Type 0 where
  of_node : Text → Owner
  of_qemu : Text → ℕ → Owner
  of_lxc : Text → ℕ → Owner

abbrev pub owner_path : Owner → Text
owner_path (of_node n) = codes "/nodes/" ++ n
owner_path (of_qemu n i) = codes "/nodes/" ++ (n ++ (codes "/qemu/" ++ decimal i))
owner_path (of_lxc n i) = codes "/nodes/" ++ (n ++ (codes "/lxc/" ++ decimal i))

-- The owner's fields of a rule: a node leaves the id alone.
unfoldable pub wired : Owner → FirewallRule → FirewallRule
wired (of_node n) r = record r { has_client = true; kind = kind_node; node = n }
wired (of_qemu n i) r = record r { has_client = true; kind = kind_qemu; node = n; vmid = i }
wired (of_lxc n i) r = record r { has_client = true; kind = kind_lxc; node = n; vmid = i }

-- `FirewallRule(pos)` of a node, a virtual machine and a container.
unfoldable pub firewall_rule : Owner → ℕ → FirewallRule
unfolding wired
firewall_rule o pos = wired o (record {
  has_client = true;
  kind = kind_unknown;
  node = [];
  vmid = 0;
  position = pos;
  fields = Json.null;
})

abbrev pub no_parent : Error
no_parent = message (
    codes
      "firewall rule has no parent context; obtain via Node/VirtualMachine/Container.FirewallRule")

-- The switch on the kind.
unfoldable pub rule_path : FirewallRule → Option Text
rule_path r =
    if r.has_client
    then (elim r.kind [
      | kind_unknown ↦ none
      | kind_node ↦
          some (codes "/nodes/" ++ (r.node ++ (codes "/firewall/rules/" ++ decimal r.position)))
      | kind_qemu ↦ some (
          codes "/nodes/"
          ++ (r.node
              ++ (codes "/qemu/"
                  ++ (decimal r.vmid ++ (codes "/firewall/rules/" ++ decimal r.position)))))
      | kind_lxc ↦ some (
          codes "/nodes/"
          ++ (r.node
              ++ (codes "/lxc/"
                  ++ (decimal r.vmid ++ (codes "/firewall/rules/" ++ decimal r.position)))))
    ])
    else none

module _ (env : Env) (calls : ℕ) (lib : RuleLib) where
  abbrev onto : FirewallRule → Option Json → Result FirewallRule
  onto r none = ok r
  onto r (some j) = lib.decode r j

  abbrev pub get_at : FirewallRule → Option Text → Action FirewallRule
  get_at r none = raise no_parent
  get_at r (some p) = get env calls p true >>= λ a. lift (onto r a)

  abbrev pub update_at : FirewallRule → Option Text → Action (Option Json)
  update_at r none = raise no_parent
  update_at r (some p) = put env calls p (some (lib.encode r)) false

  abbrev pub delete_at : Option Text → Action (Option Json)
  delete_at none = raise no_parent
  delete_at (some p) = delete env calls p false

  -- `Get`, `Update` and `Delete` of a rule.
  unfoldable pub rule_get : FirewallRule → Action FirewallRule
  unfolding rule_path
  rule_get r = get_at r (rule_path r)

  unfoldable pub rule_update : FirewallRule → Action (Option Json)
  unfolding rule_path
  rule_update r = update_at r (rule_path r)

  unfoldable pub rule_delete : FirewallRule → Action (Option Json)
  unfolding rule_path
  rule_delete r = delete_at (rule_path r)

  abbrev rules_in : Option Json → Result (List FirewallRule)
  rules_in none = ok []
  rules_in (some j) = lib.decode_list j

  -- `FirewallRules` and `NewFirewallRule` of an owner; the new rule is wired, but has no position.
  unfoldable pub firewall_rules : Owner → Action (List FirewallRule)
  unfolding wired
  firewall_rules o = get env calls (owner_path o ++ codes "/firewall/rules") true >>= λ a.
      lift (rules_in a) >>= λ rules. pure (map (wired o) rules)

  unfoldable pub new_firewall_rule : Owner → FirewallRule → Action FirewallRule
  unfolding wired
  new_firewall_rule o r =
      post env calls (owner_path o ++ codes "/firewall/rules") (some (lib.encode r)) false >>= λ _.
      pure (wired o r)
