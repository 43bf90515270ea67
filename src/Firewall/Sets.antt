-- ===== src/Firewall/Sets.antt =====
-- The aliases and IP sets of the firewalls of the cluster, of a virtual machine and of a container:
-- the same calls, under each one's own path.
pub mod Alike
mod Tests
use go_proxmox.Prelude.{ℕ, Bool, Option, none, some, [], ◌++◌, if◌then◌else◌}
use go_proxmox.Prelude.Text.{Text, codes}
use go_proxmox.Json.{Json}
use go_proxmox.World.{Env}
use go_proxmox.Client.{Action, ◌>>=◌, pure}
use go_proxmox.Containers.{Container, container_path}
use go_proxmox.Containers.Calls.{Values}
use go_proxmox.Vm.{VirtualMachine, vm_path}
use go_proxmox.Cluster.Firewall as Cluster
use go_proxmox.Containers.Firewall as Lxc
use go_proxmox.Vm.Firewall as Qemu

-- Whose firewall it is.
pub data Holder : Type 0 where
  the_cluster : Holder
  machine : VirtualMachine → Holder
  container : Container → Holder

abbrev pub holder_path : Holder → Text
holder_path the_cluster = codes "/cluster"
holder_path (machine v) = vm_path v
holder_path (container c) = container_path c

-- A call on an alias, an IP set or one of its entries.
pub data SetCall (V : Type 0) : Type 0 where
  list_aliases : SetCall V
  read_alias : Text → SetCall V
  add_alias : V → SetCall V
  change_alias : Text → V → SetCall V
  drop_alias : Text → SetCall V
  list_sets : SetCall V
  add_set : V → SetCall V
  drop_set : Text → Bool → SetCall V
  list_entries : Text → SetCall V
  add_entry : Text → V → SetCall V
  read_entry : Text → Text → SetCall V
  change_entry : Text → Text → V → SetCall V
  drop_entry : Text → Text → SetCall V

-- Its method, its place below the holder, and its body.
abbrev pub call_method : {V : Type 0} → SetCall V → Text
call_method list_aliases = codes "GET"
call_method (read_alias _) = codes "GET"
call_method (add_alias _) = codes "POST"
call_method (change_alias _ _) = codes "PUT"
call_method (drop_alias _) = codes "DELETE"
call_method list_sets = codes "GET"
call_method (add_set _) = codes "POST"
call_method (drop_set _ _) = codes "DELETE"
call_method (list_entries _) = codes "GET"
call_method (add_entry _ _) = codes "POST"
call_method (read_entry _ _) = codes "GET"
call_method (change_entry _ _ _) = codes "PUT"
call_method (drop_entry _ _) = codes "DELETE"

abbrev pub call_place : {V : Type 0} → SetCall V → Text
call_place list_aliases = codes "/firewall/aliases"
call_place (read_alias name) = codes "/firewall/aliases/" ++ name
call_place (add_alias _) = codes "/firewall/aliases"
call_place (change_alias name _) = codes "/firewall/aliases/" ++ name
call_place (drop_alias name) = codes "/firewall/aliases/" ++ name
call_place list_sets = codes "/firewall/ipset"
call_place (add_set _) = codes "/firewall/ipset"
call_place (drop_set name force) =
    (codes "/firewall/ipset/" ++ name) ++ (if force then codes "?force=1" else [])
call_place (list_entries name) = codes "/firewall/ipset/" ++ name
call_place (add_entry name _) = codes "/firewall/ipset/" ++ name
call_place (read_entry name cidr) = codes "/firewall/ipset/" ++ (name ++ (codes "/" ++ cidr))
call_place (change_entry name cidr _) = codes "/firewall/ipset/" ++ (name ++ (codes "/" ++ cidr))
call_place (drop_entry name cidr) = codes "/firewall/ipset/" ++ (name ++ (codes "/" ++ cidr))

abbrev pub call_body : (lib : Values) → SetCall (lib.Value) → Option Json
call_body lib (add_alias v) = some (lib.encode v)
call_body lib (change_alias _ v) = some (lib.encode v)
call_body lib (add_set v) = some (lib.encode v)
call_body lib (add_entry _ v) = some (lib.encode v)
call_body lib (change_entry _ _ v) = some (lib.encode v)
call_body lib _ = none

abbrev ignored : {A : Type 0} → Action A → Action (Unit {0})
ignored m = m >>= λ _. pure tt

module _ (env : Env) (calls : ℕ) (lib : Values) where
  -- Make the call, and ignore its result.
  abbrev pub make : Holder → SetCall (lib.Value) → Action (Unit {0})
  make the_cluster list_aliases = ignored (Cluster.firewall_aliases env calls lib)
  make the_cluster (read_alias name) = ignored (Cluster.firewall_alias env calls lib name)
  make the_cluster (add_alias v) = ignored (Cluster.new_firewall_alias env calls lib (some v))
  make the_cluster (change_alias name v) =
      ignored (Cluster.firewall_alias_update env calls lib name (some v))
  make the_cluster (drop_alias name) = ignored (Cluster.firewall_alias_delete env calls lib name)
  make the_cluster list_sets = ignored (Cluster.firewall_ipsets env calls lib)
  make the_cluster (add_set v) = ignored (Cluster.new_firewall_ipset env calls lib (some v))
  make the_cluster (drop_set name force) =
      ignored (Cluster.firewall_ipset_delete env calls lib name force)
  make the_cluster (list_entries name) = ignored (Cluster.firewall_ipset env calls lib name)
  make the_cluster (add_entry name v) =
      ignored (Cluster.new_firewall_ipset_entry env calls lib name (some v))
  make the_cluster (read_entry name cidr) =
      ignored (Cluster.firewall_ipset_entry env calls lib name cidr)
  make the_cluster (change_entry name cidr v) =
      ignored (Cluster.firewall_ipset_entry_update env calls lib name cidr (some v))
  make the_cluster (drop_entry name cidr) =
      ignored (Cluster.firewall_ipset_entry_delete env calls lib name cidr)
  make (machine w) list_aliases = ignored (Qemu.get_firewall_aliases env calls lib w)
  make (machine w) (read_alias name) = ignored (Qemu.get_firewall_alias env calls lib w name)
  make (machine w) (add_alias v) = ignored (Qemu.new_firewall_alias env calls lib w (some v))
  make (machine w) (change_alias name v) =
      ignored (Qemu.update_firewall_alias env calls lib w name (some v))
  make (machine w) (drop_alias name) = ignored (Qemu.delete_firewall_alias env calls lib w name)
  make (machine w) list_sets = ignored (Qemu.get_firewall_ipset env calls lib w)
  make (machine w) (add_set v) = ignored (Qemu.new_firewall_ipset env calls lib w v)
  make (machine w) (drop_set name force) =
      ignored (Qemu.delete_firewall_ipset env calls lib w name force)
  make (machine w) (list_entries name) =
      ignored (Qemu.get_firewall_ipset_entries env calls lib w name)
  make (machine w) (add_entry name v) =
      ignored (Qemu.new_firewall_ipset_entry env calls lib w name v)
  make (machine w) (read_entry name cidr) =
      ignored (Qemu.get_firewall_ipset_entry env calls lib w name cidr)
  make (machine w) (change_entry name cidr v) =
      ignored (Qemu.update_firewall_ipset_entry env calls lib w name cidr (some v))
  make (machine w) (drop_entry name cidr) =
      ignored (Qemu.delete_firewall_ipset_entry env calls lib w name cidr [])
  make (container c) list_aliases = ignored (Lxc.get_firewall_aliases env calls lib c)
  make (container c) (read_alias name) = ignored (Lxc.get_firewall_alias env calls lib c name)
  make (container c) (add_alias v) = ignored (Lxc.new_firewall_alias env calls lib c (some v))
  make (container c) (change_alias name v) =
      ignored (Lxc.update_firewall_alias env calls lib c name (some v))
  make (container c) (drop_alias name) = ignored (Lxc.delete_firewall_alias env calls lib c name)
  make (container c) list_sets = ignored (Lxc.get_firewall_ipset env calls lib c)
  make (container c) (add_set v) = ignored (Lxc.new_firewall_ipset env calls lib c v)
  make (container c) (drop_set name force) =
      ignored (Lxc.delete_firewall_ipset env calls lib c name force)
  make (container c) (list_entries name) =
      ignored (Lxc.get_firewall_ipset_entries env calls lib c name)
  make (container c) (add_entry name v) =
      ignored (Lxc.new_firewall_ipset_entry env calls lib c name v)
  make (container c) (read_entry name cidr) =
      ignored (Lxc.get_firewall_ipset_entry env calls lib c name cidr)
  make (container c) (change_entry name cidr v) =
      ignored (Lxc.update_firewall_ipset_entry env calls lib c name cidr (some v))
  make (container c) (drop_entry name cidr) =
      ignored (Lxc.delete_firewall_ipset_entry env calls lib c name cidr [])
