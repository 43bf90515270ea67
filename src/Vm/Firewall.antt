-- ===== src/Vm/Firewall.antt =====
-- virtual_machine.go and virtual_machine_firewall.go: the firewall of a virtual machine but its rules.
use go_proxmox.Prelude.{ℕ, Bool, true, false, Option, none, some, [], ◌∷◌, ◌++◌, if◌then◌else◌, ltb}
use go_proxmox.Prelude.Text.{Text, codes, is_empty}
use go_proxmox.Prelude.Map.{Map}
use go_proxmox.Json.{Json}
use go_proxmox.World.{Env}
use go_proxmox.Client.{Action, ◌>>=◌, pure}
use go_proxmox.Errors.Decimal.{decimal}
use go_proxmox.Session.Req.{get, post, put, delete}
use go_proxmox.Containers.Calls.{Values, read, pointer, delete_with_params}
use go_proxmox.Vm.{VirtualMachine, vm_path}
use go_proxmox.Firewall.Params.{ipset_delete_params, ipset_entry_delete_params}

-- `if n > 0 { q.Set(key, strconv.Itoa(n)) }`.
abbrev if_above : ℕ → Text → Map Text → Map Text
if_above n key q = if ltb 0 n then (key, decimal n) ∷ q else q

module _ (env : Env) (calls : ℕ) (lib : Values) where
  module _ (v : VirtualMachine) where
    abbrev at : Text → Text
    at suffix = vm_path v ++ suffix

    -- `u.RawQuery = q.Encode()` in the String of a url.URL.
    abbrev with_values : Text → Map Text → Text
    with_values path q = lib.url_string path (lib.query q)

    unfoldable pub get_firewall_aliases : Action lib.Value
    unfolding read
    get_firewall_aliases =
        read env calls lib (at (codes "/firewall/aliases")) (codes "[]*FirewallAlias")

    unfoldable pub get_firewall_alias : Text → Action lib.Value
    unfolding read
    get_firewall_alias name =
        read env calls lib (at (codes "/firewall/aliases/" ++ name)) (codes "*FirewallAlias")

    unfoldable pub new_firewall_alias : Option lib.Value → Action (Option Json)
    new_firewall_alias alias =
        post env calls (at (codes "/firewall/aliases")) (pointer env calls lib alias) false

    unfoldable pub update_firewall_alias : Text → Option lib.Value → Action (Option Json)
    update_firewall_alias name alias =
        put env calls (at (codes "/firewall/aliases/" ++ name)) (pointer env calls lib alias) false

    unfoldable pub delete_firewall_alias : Text → Action (Option Json)
    delete_firewall_alias name = delete env calls (at (codes "/firewall/aliases/" ++ name)) false

    unfoldable pub get_firewall_ipset : Action lib.Value
    unfolding read
    get_firewall_ipset =
        read env calls lib (at (codes "/firewall/ipset")) (codes "[]*FirewallIPSet")

    unfoldable pub new_firewall_ipset : lib.Value → Action (Option Json)
    new_firewall_ipset ipset =
        post env calls (at (codes "/firewall/ipset")) (some (lib.encode ipset)) false

    unfoldable pub delete_firewall_ipset : Text → Bool → Action (Option Json)
    unfolding delete_with_params ipset_delete_params
    delete_firewall_ipset name force =
        delete_with_params env calls lib (at (codes "/firewall/ipset/" ++ name))
          (ipset_delete_params lib force) false

    unfoldable pub get_firewall_ipset_entries : Text → Action lib.Value
    unfolding read
    get_firewall_ipset_entries name =
        read env calls lib (at (codes "/firewall/ipset/" ++ name)) (codes "[]*FirewallIPSetEntry")

    unfoldable pub new_firewall_ipset_entry : Text → lib.Value → Action (Option Json)
    new_firewall_ipset_entry name entry =
        post env calls (at (codes "/firewall/ipset/" ++ name)) (some (lib.encode entry)) false

    unfoldable pub get_firewall_ipset_entry : Text → Text → Action lib.Value
    unfolding read
    get_firewall_ipset_entry name cidr =
        read env calls lib (at (codes "/firewall/ipset/" ++ (name ++ (codes "/" ++ cidr))))
          (codes "*FirewallIPSetEntry")

    unfoldable pub update_firewall_ipset_entry :
        Text → Text → Option lib.Value → Action (Option Json)
    update_firewall_ipset_entry name cidr entry =
        put env calls (at (codes "/firewall/ipset/" ++ (name ++ (codes "/" ++ cidr))))
          (pointer env calls lib entry) false

    unfoldable pub delete_firewall_ipset_entry : Text → Text → Text → Action (Option Json)
    unfolding delete_with_params ipset_entry_delete_params
    delete_firewall_ipset_entry name cidr digest =
        delete_with_params env calls lib
          (at (codes "/firewall/ipset/" ++ (name ++ (codes "/" ++ cidr))))
          (ipset_entry_delete_params lib digest) false

    unfoldable pub firewall : Action lib.Value
    unfolding read
    firewall = read env calls lib (at (codes "/firewall")) (codes "*Firewall")

    unfoldable pub firewall_log : ℕ → ℕ → ℕ → ℕ → Action lib.Value
    unfolding read
    firewall_log start limit since until =
        read env calls lib
          (with_values (at (codes "/firewall/log")) (
            if_above start (codes "start") (
              if_above limit (codes "limit")
                (if_above since (codes "since") (if_above until (codes "until") [])))))
          (codes "[]*FirewallLogEntry")

    unfoldable pub firewall_refs : Text → Action lib.Value
    unfolding read
    firewall_refs ref_type =
        read env calls lib
          (if is_empty ref_type
            then lib.url_string (at (codes "/firewall/refs")) []
            else with_values (at (codes "/firewall/refs")) ((codes "type", ref_type) ∷ []))
          (codes "[]*FirewallRef")

    -- The options are given by value, as a nil pointer: what is decoded is dropped.
    unfoldable pub firewall_option_get : Action (Option lib.Value)
    firewall_option_get = get env calls (at (codes "/firewall/options")) true >>= λ _. pure none

    unfoldable pub firewall_option_set : Option lib.Value → Action (Option Json)
    firewall_option_set options =
        put env calls (at (codes "/firewall/options")) (pointer env calls lib options) false
