-- ===== src/Containers/Firewall.antt =====
-- containers.go: the firewall of a container but its rules.
use go_proxmox.Prelude.{ℕ, Bool, false, Option, some, ◌++◌}
use go_proxmox.Prelude.Text.{Text, codes}
use go_proxmox.Json.{Json}
use go_proxmox.World.{Env}
use go_proxmox.Client.{Action}
use go_proxmox.Session.Req.{post, put, delete}
use go_proxmox.Containers.Calls.{Values, read, pointer, delete_with_params}
use go_proxmox.Containers.{Container, container_path}
use go_proxmox.Firewall.Params.{ipset_delete_params, ipset_entry_delete_params}

module _ (env : Env) (calls : ℕ) (lib : Values) where
  module _ (c : Container) where
    abbrev at : Text → Text
    at suffix = container_path c ++ suffix

    unfoldable pub get_firewall_aliases : Action lib.Value
    unfolding read
    get_firewall_aliases =
        read env calls lib (at (codes "/firewall/aliases")) (codes "[]*FirewallAlias")

    unfoldable pub get_firewall_alias : Text → Action lib.Value
    unfolding read
    get_firewall_alias name =
        read env calls lib (at (codes "/firewall/aliases/" ++ name)) (codes "*FirewallAlias")

    unfoldable pub new_firewall_alias : Option lib.Value → Action (Option Json)
    new_firewall_alias alias =
        post env calls (at (codes "/firewall/aliases")) (pointer env calls lib alias) false

    unfoldable pub update_firewall_alias : Text → Option lib.Value → Action (Option Json)
    update_firewall_alias name alias =
        put env calls (at (codes "/firewall/aliases/" ++ name)) (pointer env calls lib alias) false

    unfoldable pub delete_firewall_alias : Text → Action (Option Json)
    delete_firewall_alias name = delete env calls (at (codes "/firewall/aliases/" ++ name)) false

    unfoldable pub get_firewall_ipset : Action lib.Value
    unfolding read
    get_firewall_ipset =
        read env calls lib (at (codes "/firewall/ipset")) (codes "[]*FirewallIPSet")

    unfoldable pub new_firewall_ipset : lib.Value → Action (Option Json)
    new_firewall_ipset ipset =
        post env calls (at (codes "/firewall/ipset")) (some (lib.encode ipset)) false

    unfoldable pub delete_firewall_ipset : Text → Bool → Action (Option Json)
    unfolding delete_with_params ipset_delete_params
    delete_firewall_ipset name force =
        delete_with_params env calls lib (at (codes "/firewall/ipset/" ++ name))
          (ipset_delete_params lib force) false

    unfoldable pub get_firewall_ipset_entries : Text → Action lib.Value
    unfolding read
    get_firewall_ipset_entries name =
        read env calls lib (at (codes "/firewall/ipset/" ++ name)) (codes "[]*FirewallIPSetEntry")

    unfoldable pub new_firewall_ipset_entry : Text → lib.Value → Action (Option Json)
    new_firewall_ipset_entry name entry =
        post env calls (at (codes "/firewall/ipset/" ++ name)) (some (lib.encode entry)) false

    unfoldable pub get_firewall_ipset_entry : Text → Text → Action lib.Value
    unfolding read
    get_firewall_ipset_entry name cidr =
        read env calls lib (at (codes "/firewall/ipset/" ++ (name ++ (codes "/" ++ cidr))))
          (codes "*FirewallIPSetEntry")

    unfoldable pub update_firewall_ipset_entry :
        Text → Text → Option lib.Value → Action (Option Json)
    update_firewall_ipset_entry name cidr entry =
        put env calls (at (codes "/firewall/ipset/" ++ (name ++ (codes "/" ++ cidr))))
          (pointer env calls lib entry) false

    unfoldable pub delete_firewall_ipset_entry : Text → Text → Text → Action (Option Json)
    unfolding delete_with_params ipset_entry_delete_params
    delete_firewall_ipset_entry name cidr digest =
        delete_with_params env calls lib
          (at (codes "/firewall/ipset/" ++ (name ++ (codes "/" ++ cidr))))
          (ipset_entry_delete_params lib digest) false

    unfoldable pub firewall : Action lib.Value
    unfolding read
    firewall = read env calls lib (at (codes "/firewall")) (codes "*Firewall")

    unfoldable pub get_firewall_options : Action lib.Value
    unfolding read
    get_firewall_options =
        read env calls lib (at (codes "/firewall/options")) (codes "*FirewallVirtualMachineOption")

    unfoldable pub update_firewall_options : Option lib.Value → Action (Option Json)
    update_firewall_options options =
        put env calls (at (codes "/firewall/options")) (pointer env calls lib options) false

    unfoldable pub firewall_log : Action lib.Value
    unfolding read
    firewall_log = read env calls lib (at (codes "/firewall/log")) (codes "[]*FirewallLogEntry")

    unfoldable pub firewall_refs : Action lib.Value
    unfolding read
    firewall_refs = read env calls lib (at (codes "/firewall/refs")) (codes "[]*FirewallRef")
