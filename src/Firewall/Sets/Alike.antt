-- ===== src/Firewall/Sets/Alike.antt =====
-- The calls on aliases and IP sets, holder by holder.

use Prim.Native.Nat.{suc}
use go_proxmox.Prelude.{
  ℕ, ◌≡◌, refl, Bool, true, false, Option, none, [], ◌∷◌, ◌++◌, append_assoc, append-nil, ◌∙◌, ap,
  subst,
}
use go_proxmox.Prelude.Text.{Text, codes, has_prefix}
use go_proxmox.World.{Env}
use go_proxmox.Client.{State, Action, pure}
use go_proxmox.Client.Ends.{Ends-bind, Ends-lift}
use go_proxmox.Session.Steps.{DecodesSession, IsTimely}
use go_proxmox.Session.Sent.{IsPlain, Emitted, Emits, IsOf, url_at}
use go_proxmox.Session.Sent.Refused.{req-Sends}
use go_proxmox.Session.Req.{req, get, post, put, delete}
use go_proxmox.Containers.Calls.{Values, read, delete_with_params}
use go_proxmox.Firewall.Params.{ipset_delete_params, ipset_entry_delete_params}
use go_proxmox.Firewall.Place.{SendsOnly}
use go_proxmox.Cluster.Named.Families.{wire}
use go_proxmox.Cluster.Firewall as Cluster
use go_proxmox.Containers.Firewall as Lxc
use go_proxmox.Vm.Firewall as Qemu
use go_proxmox.Firewall.Sets.{
  Holder, the_cluster, machine, container, holder_path, SetCall, call_method, call_place, call_body,
  make, ignored, list_aliases, read_alias, add_alias, change_alias, drop_alias, list_sets, add_set,
  drop_set, list_entries, add_entry, read_entry, change_entry, drop_entry,
}

module _ (env : Env) (start : ℕ) (decodes : DecodesSession env) (timely : IsTimely start env)
    (base : Text) (is_url : has_prefix base (codes "/") ≡ false) (f : ℕ) (lib : Values)
    (forces : lib.query ((codes "force", codes "1") ∷ []) ≡ codes "force=1") (s : State)
    (h : IsPlain base s) where
  abbrev Sends : {A : Type 0} → Text → Text → Option Text → Action A → Type 0
  Sends method path body m = SendsOnly base method path body m s

  ignoring :
      {A : Type 0} (method path : Text) (body : Option Text) (m : Action A)
      → Sends method path body m
      → Sends method path body (ignored m)
  ignoring method path body m g =
      Ends-bind m (λ a. pure tt) s (Emits base (IsOf base method (url_at base path) body) s)
        (Emits base (IsOf base method (url_at base path) body) s) g (λ a t q. q) (λ e t q. q)

  sending :
      (method path : Text) (body : Option Text) (wants : Bool)
      → Sends method path body (ignored (req env (suc (suc f)) method path body wants))
  sending method path body wants =
      ignoring method path body (req env (suc (suc f)) method path body wants)
        (req-Sends env base is_url start decodes timely f method path body wants s h)

  -- The deletion of a path with a suffix.
  deleting :
      (prefix place suffix shown : Text)
      → suffix ≡ shown
      → Sends (codes "DELETE") (prefix ++ (place ++ shown)) none (
          ignored (req env (suc (suc f)) (codes "DELETE") ((prefix ++ place) ++ suffix) none false))
  deleting prefix place suffix shown e =
      subst
        (λ p. Sends (codes "DELETE") p none (
          ignored
            (req env (suc (suc f)) (codes "DELETE") ((prefix ++ place) ++ suffix) none false)))
        (append_assoc prefix place suffix ∙ ap (λ x. prefix ++ (place ++ x)) e)
        (sending (codes "DELETE") ((prefix ++ place) ++ suffix) none false)

  deleting_whole :
      (path : Text)
      → Sends
          (codes "DELETE")
          path
          none
          (ignored (req env (suc (suc f)) (codes "DELETE") (path ++ []) none false))
  deleting_whole path =
      subst
        (λ p.
          Sends (codes "DELETE") p none
            (ignored (req env (suc (suc f)) (codes "DELETE") (path ++ []) none false)))
        (append-nil path) (sending (codes "DELETE") (path ++ []) none false)

  reading :
      (path type : Text)
      → Sends (codes "GET") path none (ignored (read env (suc (suc f)) lib path type))
  unfolding read get
  reading path type = ignoring (codes "GET") path none (read env (suc (suc f)) lib path type) (
      Ends-lift (req env (suc (suc f)) (codes "GET") path none true) _ s
        (Emitted (IsOf base (codes "GET") (url_at base path) none) base s)
        (req-Sends env base is_url start decodes timely f (codes "GET") path none true s h))

  -- The calls on aliases, IP sets and their entries mean the same for the cluster, a virtual
  -- machine and a container: each ends, and sends its own method and body to its own place below
  -- the path of whose firewall it is, and logins, and nothing else; an IP set is deleted with
  -- force=1 exactly where that is asked for, and a new or changed value is what is sent. An entry
  -- is deleted without a digest. The conditions: a query of force as 1 is written force=1; no login
  -- is accepted with null for a session, every other value that decodes gives one; the clock moves
  -- less than an hour; and the client has no interceptors and an address that does not begin with a
  -- slash.
  pub set_calls_alike :
      (o : Holder) (call : SetCall (lib.Value))
      → SendsOnly base
          (call_method call)
          (holder_path o ++ call_place call)
          (wire env (call_body lib call))
          (make env (suc (suc f)) lib o call)
          s
  unfolding Cluster.firewall_aliases Cluster.firewall_alias Cluster.new_firewall_alias
      Cluster.firewall_alias_update Cluster.firewall_alias_delete Cluster.firewall_ipsets
      Cluster.new_firewall_ipset Cluster.firewall_ipset_delete Cluster.firewall_ipset
      Cluster.new_firewall_ipset_entry Cluster.firewall_ipset_entry
      Cluster.firewall_ipset_entry_update Cluster.firewall_ipset_entry_delete
      Qemu.get_firewall_aliases Qemu.get_firewall_alias Qemu.new_firewall_alias
      Qemu.update_firewall_alias Qemu.delete_firewall_alias Qemu.get_firewall_ipset
      Qemu.new_firewall_ipset Qemu.delete_firewall_ipset Qemu.get_firewall_ipset_entries
      Qemu.new_firewall_ipset_entry Qemu.get_firewall_ipset_entry Qemu.update_firewall_ipset_entry
      Qemu.delete_firewall_ipset_entry Lxc.get_firewall_aliases Lxc.get_firewall_alias
      Lxc.new_firewall_alias Lxc.update_firewall_alias Lxc.delete_firewall_alias
      Lxc.get_firewall_ipset Lxc.new_firewall_ipset Lxc.delete_firewall_ipset
      Lxc.get_firewall_ipset_entries Lxc.new_firewall_ipset_entry Lxc.get_firewall_ipset_entry
      Lxc.update_firewall_ipset_entry Lxc.delete_firewall_ipset_entry delete_with_params
      ipset_delete_params ipset_entry_delete_params post put delete
  set_calls_alike the_cluster list_aliases = reading _ _
  set_calls_alike the_cluster (read_alias name) = reading _ _
  set_calls_alike the_cluster (add_alias v) = sending (codes "POST") _ _ false
  set_calls_alike the_cluster (change_alias name v) = sending (codes "PUT") _ _ false
  set_calls_alike the_cluster (drop_alias name) = sending (codes "DELETE") _ none false
  set_calls_alike the_cluster list_sets = reading _ _
  set_calls_alike the_cluster (add_set v) = sending (codes "POST") _ _ false
  set_calls_alike the_cluster (drop_set name true) =
      deleting (holder_path the_cluster) (codes "/firewall/ipset/" ++ name) _ _ refl
  set_calls_alike the_cluster (drop_set name false) =
      deleting (holder_path the_cluster) (codes "/firewall/ipset/" ++ name) [] [] refl
  set_calls_alike the_cluster (list_entries name) = reading _ _
  set_calls_alike the_cluster (add_entry name v) = sending (codes "POST") _ _ false
  set_calls_alike the_cluster (read_entry name cidr) = reading _ _
  set_calls_alike the_cluster (change_entry name cidr v) = sending (codes "PUT") _ _ false
  set_calls_alike the_cluster (drop_entry name cidr) = sending (codes "DELETE") _ none false
  set_calls_alike (machine w) list_aliases = reading _ _
  set_calls_alike (machine w) (read_alias name) = reading _ _
  set_calls_alike (machine w) (add_alias v) = sending (codes "POST") _ _ false
  set_calls_alike (machine w) (change_alias name v) = sending (codes "PUT") _ _ false
  set_calls_alike (machine w) (drop_alias name) = sending (codes "DELETE") _ none false
  set_calls_alike (machine w) list_sets = reading _ _
  set_calls_alike (machine w) (add_set v) = sending (codes "POST") _ _ false
  set_calls_alike (machine w) (drop_set name true) =
      deleting (holder_path (machine w)) (codes "/firewall/ipset/" ++ name) _ _
        (ap (λ q. codes "?" ++ q) forces)
  set_calls_alike (machine w) (drop_set name false) =
      deleting (holder_path (machine w)) (codes "/firewall/ipset/" ++ name) [] [] refl
  set_calls_alike (machine w) (list_entries name) = reading _ _
  set_calls_alike (machine w) (add_entry name v) = sending (codes "POST") _ _ false
  set_calls_alike (machine w) (read_entry name cidr) = reading _ _
  set_calls_alike (machine w) (change_entry name cidr v) = sending (codes "PUT") _ _ false
  set_calls_alike (machine w) (drop_entry name cidr) =
      deleting_whole
        (holder_path (machine w) ++ (codes "/firewall/ipset/" ++ (name ++ (codes "/" ++ cidr))))
  set_calls_alike (container c) list_aliases = reading _ _
  set_calls_alike (container c) (read_alias name) = reading _ _
  set_calls_alike (container c) (add_alias v) = sending (codes "POST") _ _ false
  set_calls_alike (container c) (change_alias name v) = sending (codes "PUT") _ _ false
  set_calls_alike (container c) (drop_alias name) = sending (codes "DELETE") _ none false
  set_calls_alike (container c) list_sets = reading _ _
  set_calls_alike (container c) (add_set v) = sending (codes "POST") _ _ false
  set_calls_alike (container c) (drop_set name true) =
      deleting (holder_path (container c)) (codes "/firewall/ipset/" ++ name) _ _
        (ap (λ q. codes "?" ++ q) forces)
  set_calls_alike (container c) (drop_set name false) =
      deleting (holder_path (container c)) (codes "/firewall/ipset/" ++ name) [] [] refl
  set_calls_alike (container c) (list_entries name) = reading _ _
  set_calls_alike (container c) (add_entry name v) = sending (codes "POST") _ _ false
  set_calls_alike (container c) (read_entry name cidr) = reading _ _
  set_calls_alike (container c) (change_entry name cidr v) = sending (codes "PUT") _ _ false
  set_calls_alike (container c) (drop_entry name cidr) =
      deleting_whole
        (holder_path (container c) ++ (codes "/firewall/ipset/" ++ (name ++ (codes "/" ++ cidr))))
