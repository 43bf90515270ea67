-- ===== src/Containers/Scope.antt =====
-- Where the calls on a container go.
use go_proxmox.Prelude.{inl, [], ◌∷◌, ℕ, refl, Bool, Option, List, ◌++◌, sym, append_assoc, ap, ◌∙◌}
use go_proxmox.Prelude.Text.{Text, codes, has_prefix}
use go_proxmox.Prelude.Int.{ℤ}
use go_proxmox.Prelude.Map.{Map}
use go_proxmox.World.{Env}
use go_proxmox.Client.{Action, ◌>>=◌, pure}
use go_proxmox.Session.Sent.Scope.{IsAt, IsRooted, Starts}
use go_proxmox.Errors.Decimal.{decimal}
use go_proxmox.Containers.{Container, container_path, container_config}
use go_proxmox.Containers.Calls.{
  Values, container_delete, container_ping, container_start, container_stop, container_suspend,
  container_reboot, container_resume, container_shutdown, term_proxy, vnc_proxy, spice_proxy,
  has_feature, interfaces, container_migrate, container_resize, move_volume,
  container_remote_migrate, migration_tunnel, rrd_data, rrd, migrate_preconditions, template,
  pending, dir_index, status_index,
}
use go_proxmox.Containers.Snapshots.{
  snapshot, snapshots, snapshot_path, container_new_snapshot, snapshot_rollback, snapshot_delete,
  snapshot_config, snapshot_update_config, snapshot_sub_resources,
}

-- A call on a container, or on one of its snapshots.
pub data Operation (V : Type 0) : Type 0 where
  set_config : Map Text → Operation V
  remove_it : Text → Operation V
  ping_it : Operation V
  start : Operation V
  stop : Operation V
  suspend : Operation V
  reboot : Operation V
  resume : Operation V
  shut_down : Bool → ℤ → Operation V
  open_term : Operation V
  open_vnc : V → Operation V
  open_spice : Operation V
  get_feature : Operation V
  get_interfaces : Operation V
  migrate : Option V → Operation V
  resize : Text → Text → Operation V
  move : Option V → Operation V
  migrate_away : Option V → Operation V
  open_tunnel : Option V → Operation V
  get_rrd_data : Text → List Text → Operation V
  get_rrd : Text → Text → List Text → Operation V
  get_preconditions : Text → Operation V
  make_template : Operation V
  get_pending : Operation V
  get_index : Operation V
  get_status_index : Operation V
  get_snapshots : Operation V
  take_snapshot : Text → Operation V
  roll_back : Text → Bool → Operation V
  remove_snapshot : Text → Operation V
  get_snapshot_config : Text → Operation V
  set_snapshot_config : Text → Option V → Operation V
  get_snapshot_index : Text → Operation V

-- The method of its request.
abbrev pub verb : {V : Type 0} → Operation V → Text
verb (set_config _) = codes "PUT"
verb (remove_it _) = codes "DELETE"
verb ping_it = codes "GET"
verb get_feature = codes "GET"
verb get_interfaces = codes "GET"
verb (resize _ _) = codes "PUT"
verb (get_rrd_data _ _) = codes "GET"
verb (get_rrd _ _ _) = codes "GET"
verb (get_preconditions _) = codes "GET"
verb get_pending = codes "GET"
verb get_index = codes "GET"
verb get_status_index = codes "GET"
verb get_snapshots = codes "GET"
verb (remove_snapshot _) = codes "DELETE"
verb (get_snapshot_config _) = codes "GET"
verb (set_snapshot_config _ _) = codes "PUT"
verb (get_snapshot_index _) = codes "GET"
verb _ = codes "POST"

abbrev ignored : {A : Type 0} → Action A → Action (Unit {0})
ignored m = m >>= λ _. pure tt

module _ (env : Env) (calls : ℕ) (lib : Values) (c : Container) where
  -- Make the call, and ignore its result.
  abbrev pub perform : Operation (lib.Value) → Action (Unit {0})
  perform (set_config options) = ignored (container_config env calls c options)
  perform (remove_it params) = ignored (container_delete env calls lib c params)
  perform ping_it = ignored (container_ping env calls lib c)
  perform start = ignored (container_start env calls lib c)
  perform stop = ignored (container_stop env calls lib c)
  perform suspend = ignored (container_suspend env calls lib c)
  perform reboot = ignored (container_reboot env calls lib c)
  perform resume = ignored (container_resume env calls lib c)
  perform (shut_down force timeout) = ignored (container_shutdown env calls lib c force timeout)
  perform open_term = ignored (term_proxy env calls lib c)
  perform (open_vnc options) = ignored (vnc_proxy env calls lib c options)
  perform open_spice = ignored (spice_proxy env calls lib c)
  perform get_feature = ignored (has_feature env calls lib c)
  perform get_interfaces = ignored (interfaces env calls lib c)
  perform (migrate params) = ignored (container_migrate env calls lib c params)
  perform (resize disk size) = ignored (container_resize env calls lib c disk size)
  perform (move params) = ignored (move_volume env calls lib c params)
  perform (migrate_away params) = ignored (container_remote_migrate env calls lib c params)
  perform (open_tunnel options) = ignored (migration_tunnel env calls lib c options)
  perform (get_rrd_data timeframe functions) =
      ignored (rrd_data env calls lib c timeframe functions)
  perform (get_rrd ds timeframe functions) = ignored (rrd env calls lib c ds timeframe functions)
  perform (get_preconditions target) = ignored (migrate_preconditions env calls lib c target)
  perform make_template = ignored (template env calls lib c)
  perform get_pending = ignored (pending env calls lib c)
  perform get_index = ignored (dir_index env calls lib c)
  perform get_status_index = ignored (status_index env calls lib c)
  perform get_snapshots = ignored (snapshots env calls lib c)
  perform (take_snapshot name) = ignored (container_new_snapshot env calls lib c name)
  perform (roll_back name go) = ignored (snapshot_rollback env calls lib (snapshot c name) go)
  perform (remove_snapshot name) = ignored (snapshot_delete env calls lib (snapshot c name))
  perform (get_snapshot_config name) = ignored (snapshot_config env calls lib (snapshot c name))
  perform (set_snapshot_config name options) =
      ignored (snapshot_update_config env calls lib (snapshot c name) options)
  perform (get_snapshot_index name) =
      ignored (snapshot_sub_resources env calls lib (snapshot c name))

pub Starts-append : (rest more : Text) → Starts rest → Starts more → Starts (rest ++ more)
Starts-append [] more h g = g
Starts-append (c ∷ rest) more h g = h

pub IsAt-append : (root path more : Text) → IsAt root path → Starts more → IsAt root (path ++ more)
IsAt-append root path more (rest, e, h) g =
    (rest ++ more, ap (λ p. p ++ more) e ∙ append_assoc root rest more, Starts-append rest more h g)

pub snapshot-IsAt :
    (c : Container) (name : Text) → IsAt (container_path c) (snapshot_path (snapshot c name))
unfolding snapshot
snapshot-IsAt c name = (
  codes "/snapshot/" ++ name,
  ap (λ p. codes "/nodes/" ++ p) (sym (append_assoc c.node (codes "/lxc/" ++ decimal c.vmid) _)),
  inl refl,
)

pub container-IsRooted : (c : Container) → IsRooted (container_path c)
unfolding has_prefix
container-IsRooted c = refl

-- url.URL's String keeps the path of a container, whose node's name needs no escapes.
abbrev pub KeepsPath : Values → Container → Type 0
KeepsPath lib c =
    (name query : Text)
    → Starts name
    → IsAt (container_path c) (lib.url_string (container_path c ++ name) query)
