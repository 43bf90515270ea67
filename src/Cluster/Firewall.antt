-- ===== src/Cluster/Firewall.antt =====
-- cluster_firewall.go: the firewall of the cluster, without the rules and groups that it changes in
-- place. Positions are from 0 on.
use go_proxmox.Prelude.{ℕ, Bool, false, Option, [], ◌++◌, if◌then◌else◌}
use go_proxmox.Prelude.Text.{Text, codes, is_empty}
use go_proxmox.Json.{Json}
use go_proxmox.World.{Env}
use go_proxmox.Client.{Action}
use go_proxmox.Errors.Decimal.{decimal}
use go_proxmox.Session.Req.{post, put, delete}
use go_proxmox.Containers.Calls.{Values, read, pointer}

module _ (env : Env) (calls : ℕ) (lib : Values) where
  abbrev at : Text → Text
  at suffix = codes "/cluster" ++ suffix

  unfoldable pub firewall_aliases : Action lib.Value
  unfolding read
  firewall_aliases = read env calls lib (at (codes "/firewall/aliases")) (codes "[]*FirewallAlias")

  unfoldable pub firewall_alias : Text → Action lib.Value
  unfolding read
  firewall_alias name =
      read env calls lib (at (codes "/firewall/aliases/" ++ name)) (codes "FirewallAlias")

  unfoldable pub new_firewall_alias : Option lib.Value → Action (Option Json)
  new_firewall_alias alias =
      post env calls (at (codes "/firewall/aliases")) (pointer env calls lib alias) false

  unfoldable pub firewall_alias_update : Text → Option lib.Value → Action (Option Json)
  firewall_alias_update name alias =
      put env calls (at (codes "/firewall/aliases/" ++ name)) (pointer env calls lib alias) false

  unfoldable pub firewall_alias_delete : Text → Action (Option Json)
  firewall_alias_delete name = delete env calls (at (codes "/firewall/aliases/" ++ name)) false

  unfoldable pub firewall_ipsets : Action lib.Value
  unfolding read
  firewall_ipsets = read env calls lib (at (codes "/firewall/ipset")) (codes "[]*FirewallIPSet")

  unfoldable pub new_firewall_ipset : Option lib.Value → Action (Option Json)
  new_firewall_ipset ipset =
      post env calls (at (codes "/firewall/ipset")) (pointer env calls lib ipset) false

  unfoldable pub firewall_ipset_delete : Text → Bool → Action (Option Json)
  firewall_ipset_delete name force =
      delete env calls
        (at (codes "/firewall/ipset/" ++ name) ++ (if force then codes "?force=1" else [])) false

  unfoldable pub firewall_ipset : Text → Action lib.Value
  unfolding read
  firewall_ipset name =
      read env calls lib (at (codes "/firewall/ipset/" ++ name)) (codes "[]*FirewallIPSetEntry")

  unfoldable pub new_firewall_ipset_entry : Text → Option lib.Value → Action (Option Json)
  new_firewall_ipset_entry name entry =
      post env calls (at (codes "/firewall/ipset/" ++ name)) (pointer env calls lib entry) false

  unfoldable pub firewall_ipset_entry : Text → Text → Action lib.Value
  unfolding read
  firewall_ipset_entry name cidr =
      read env calls lib (at (codes "/firewall/ipset/" ++ (name ++ (codes "/" ++ cidr))))
        (codes "FirewallIPSetEntry")

  unfoldable pub firewall_ipset_entry_update : Text → Text → Option lib.Value → Action (Option Json)
  firewall_ipset_entry_update name cidr entry =
      put env calls (at (codes "/firewall/ipset/" ++ (name ++ (codes "/" ++ cidr))))
        (pointer env calls lib entry) false

  unfoldable pub firewall_ipset_entry_delete : Text → Text → Action (Option Json)
  firewall_ipset_entry_delete name cidr =
      delete env calls (at (codes "/firewall/ipset/" ++ (name ++ (codes "/" ++ cidr)))) false

  unfoldable pub cluster_firewall_rules : Action lib.Value
  unfolding read
  cluster_firewall_rules =
      read env calls lib (at (codes "/firewall/rules")) (codes "[]*FirewallRule")

  unfoldable pub cluster_firewall_rule : ℕ → Action lib.Value
  unfolding read
  cluster_firewall_rule pos =
      read env calls lib (at (codes "/firewall/rules/" ++ decimal pos)) (codes "FirewallRule")

  unfoldable pub new_cluster_firewall_rule : Option lib.Value → Action (Option Json)
  new_cluster_firewall_rule rule =
      post env calls (at (codes "/firewall/rules")) (pointer env calls lib rule) false

  unfoldable pub firewall_rule_delete : ℕ → Action (Option Json)
  firewall_rule_delete pos = delete env calls (at (codes "/firewall/rules/" ++ decimal pos)) false

  unfoldable pub firewall_options : Action lib.Value
  unfolding read
  firewall_options =
      read env calls lib (at (codes "/firewall/options")) (codes "FirewallClusterOption")

  unfoldable pub firewall_options_update : Option lib.Value → Action (Option Json)
  firewall_options_update opts =
      put env calls (at (codes "/firewall/options")) (pointer env calls lib opts) false

  unfoldable pub firewall_macros : Action lib.Value
  unfolding read
  firewall_macros = read env calls lib (at (codes "/firewall/macros")) (codes "[]*FirewallMacro")

  unfoldable pub firewall_refs : Text → Action lib.Value
  unfolding read
  firewall_refs typ =
      read env calls lib
        (at (codes "/firewall/refs") ++ (if is_empty typ then [] else codes "?type=" ++ typ))
        (codes "[]*FirewallRef")
