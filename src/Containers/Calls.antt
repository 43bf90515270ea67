-- ===== src/Containers/Calls.antt =====
-- containers.go: the calls on a container's status, its disks and its indexes. What
-- an answer is decoded into is a value of the type named beside it.
use go_proxmox.Prelude.{
  ℕ, Bool, true, false, Option, none, some, List, [], ◌∷◌, ◌++◌, if◌then◌else◌,
}
use go_proxmox.Prelude.Text.{Text, codes, is_empty}
use go_proxmox.Prelude.Int.{ℤ}
use go_proxmox.Prelude.Map.{Map}
use go_proxmox.Errors.{message, Result, ok, err}
use go_proxmox.Json.{Json, Members}
use go_proxmox.World.{Env}
use go_proxmox.Client.{Action, ◌>>=◌, pure, lift}
use go_proxmox.Session.Req.{get, post, put, delete}
use go_proxmox.Tasks.{Task}
use go_proxmox.Vm.{task_of}
use go_proxmox.Containers.{Container, container_path}

-- Go's values, with encoding/json's reading of an answer into the type of a name, the zero value of
-- that type, and a value's JSON; the path of url.URL's String with a query; and url.Values.Encode.
pub record Values : Type 1 where
  pub Value : Type 0
  pub decode : Text → Json → Result Value
  pub zero_value : Text → Value
  pub encode : Value → Json
  pub names : Value → List Text
  pub feature : Value → Bool
  pub url_string : Text → Text → Text
  pub query : Map Text → Text

abbrev pub one : Text → Json → Members
one k v = Members.member k v Members.end

abbrev pub two : Text → Json → Text → Json → Members
two k v l w = Members.member k v (Members.member l w Members.end)

module _ (env : Env) (calls : ℕ) (lib : Values) where
  abbrev value_of : Text → Option Json → Result lib.Value
  value_of type none = ok (lib.zero_value type)
  value_of type (some j) = lib.decode type j

  unfoldable pub read : Text → Text → Action lib.Value
  read path type = get env calls path true >>= λ a. lift (value_of type a)

  unfoldable pub post_read : Text → Option Json → Text → Action lib.Value
  post_read path body type = post env calls path body true >>= λ a. lift (value_of type a)

  unfoldable pub post_task : Text → Option Json → Action (Option Task)
  post_task path body = post env calls path body true >>= λ a. lift (task_of a)

  unfoldable pub put_task : Text → Option Json → Action (Option Task)
  put_task path body = put env calls path body true >>= λ a. lift (task_of a)

  -- A nil pointer is sent as null; `or_blank` sends a blank struct instead.
  abbrev pub pointer : Option lib.Value → Option Json
  pointer none = some Json.null
  pointer (some v) = some (lib.encode v)

  abbrev pub or_blank : Text → Option lib.Value → Option Json
  or_blank type none = some (lib.encode (lib.zero_value type))
  or_blank type (some v) = some (lib.encode v)

  -- `DeleteWithParams`, with its parameters encoded.
  unfoldable pub delete_with_params : Text → Option Text → Bool → Action (Option Json)
  delete_with_params path params wants =
      delete env calls (path ++ (elim params [ none ↦ [] | some q ↦ codes "?" ++ q ])) wants

  module _ (c : Container) where
    abbrev pub at : Text → Text
    at suffix = container_path c ++ suffix

    -- `Delete`, `Ping`, `Start`, `Stop`, `Suspend`, `Reboot`, `Resume` and `Shutdown`.
    unfoldable pub container_delete : Text → Action (Option Task)
    unfolding delete_with_params
    container_delete params =
        delete_with_params (container_path c) (some params) true >>= λ a. lift (task_of a)

    unfoldable pub container_ping : Action lib.Value
    unfolding read
    container_ping = read (at (codes "/status/current")) (codes "Container")

    unfoldable pub container_start : Action (Option Task)
    unfolding post_task
    container_start = post_task (at (codes "/status/start")) none

    unfoldable pub container_stop : Action (Option Task)
    unfolding post_task
    container_stop = post_task (at (codes "/status/stop")) none

    unfoldable pub container_suspend : Action (Option Task)
    unfolding post_task
    container_suspend = post_task (at (codes "/status/suspend")) none

    unfoldable pub container_reboot : Action (Option Task)
    unfolding post_task
    container_reboot = post_task (at (codes "/status/reboot")) none

    unfoldable pub container_resume : Action (Option Task)
    unfolding post_task
    container_resume = post_task (at (codes "/status/resume")) none

    unfoldable pub container_shutdown : Bool → ℤ → Action (Option Task)
    unfolding post_task
    container_shutdown force timeout = post_task (at (codes "/status/shutdown")) (
        some (
          Json.object
            (two (codes "forceStop") (Json.boolean force) (codes "timeout") (Json.number timeout))))

    -- `TermProxy`, `VNCProxy`, `SpiceProxy` and `Feature`.
    unfoldable pub term_proxy : Action lib.Value
    unfolding post_read
    term_proxy = post_read (at (codes "/termproxy")) none (codes "*Term")

    unfoldable pub vnc_proxy : lib.Value → Action lib.Value
    unfolding post_read
    vnc_proxy options =
        post_read (at (codes "/vncproxy")) (some (lib.encode options)) (codes "*VNC")

    unfoldable pub spice_proxy : Action lib.Value
    unfolding post_read
    spice_proxy = post_read (at (codes "/spiceproxy")) none (codes "*SpiceProxy")

    unfoldable pub has_feature : Action Bool
    unfolding read
    has_feature =
        read (at (codes "/feature")) (codes "struct{HasFeature bool}") >>= λ v. pure (lib.feature v)

    unfoldable pub interfaces : Action lib.Value
    unfolding read
    interfaces = read (at (codes "/interfaces")) (codes "ContainerInterfaces")

    -- `Migrate`, `Resize`, `MoveVolume`, `RemoteMigrate` and `MigrationTunnel`.
    unfoldable pub container_migrate : Option lib.Value → Action (Option Task)
    unfolding post_task
    container_migrate params = post_task (at (codes "/migrate")) (pointer params)

    unfoldable pub container_resize : Text → Text → Action (Option Task)
    unfolding put_task
    container_resize disk size = put_task (at (codes "/resize")) (
        some
          (Json.object (two (codes "disk") (Json.string disk) (codes "size") (Json.string size))))

    unfoldable pub move_volume : Option lib.Value → Action (Option Task)
    unfolding post_task
    move_volume params = post_task (at (codes "/move_volume")) (pointer params)

    unfoldable pub container_remote_migrate : Option lib.Value → Action (Option Task)
    unfolding post_task
    container_remote_migrate params = post_task (at (codes "/remote_migrate")) (pointer params)

    unfoldable pub migration_tunnel : Option lib.Value → Action lib.Value
    unfolding post_read
    migration_tunnel options =
        post_read (at (codes "/mtunnel"))
          (or_blank (codes "ContainerMigrationTunnelOptions") options)
          (codes "*ContainerMigrationTunnel")

    -- `RRDData`, `RRD` and `MigratePreconditions`: more than one consolidation function is an error.
    abbrev pub with_cf : List Text → Map Text → Result (Map Text)
    with_cf [] params = ok params
    with_cf (cf ∷ []) params = ok ((codes "cf", cf) ∷ params)
    with_cf (_ ∷ _ ∷ _) params = err (message (codes "only one consolidation function allowed"))

    unfoldable pub rrd_data : Text → List Text → Action lib.Value
    unfolding read
    rrd_data timeframe functions =
        lift (with_cf functions ((codes "timeframe", timeframe) ∷ [])) >>= λ params.
        read (lib.url_string (at (codes "/rrddata")) (lib.query params)) (codes "[]*RRDData")

    unfoldable pub rrd : Text → Text → List Text → Action lib.Value
    unfolding read
    rrd ds timeframe functions =
        lift (with_cf functions ((codes "ds", ds) ∷ (codes "timeframe", timeframe) ∷ []))
        >>= λ params.
            read (lib.url_string (at (codes "/rrd")) (lib.query params)) (codes "*ContainerRRD")

    unfoldable pub migrate_preconditions : Text → Action lib.Value
    unfolding read
    migrate_preconditions target =
        read
          (lib.url_string (at (codes "/migrate"))
            (if is_empty target then [] else lib.query ((codes "target", target) ∷ [])))
          (codes "*ContainerMigratePreconditions")

    -- `Template`, `Pending`, `DirIndex` and `StatusIndex`.
    unfoldable pub template : Action (Option Json)
    template = post env calls (at (codes "/template")) none false

    unfoldable pub pending : Action lib.Value
    unfolding read
    pending = read (at (codes "/pending")) (codes "[]*ContainerPending")

    unfoldable pub dir_index : Action lib.Value
    unfolding read
    dir_index = read (container_path c) (codes "[]*ContainerDirIndexEntry")

    unfoldable pub status_index : Action lib.Value
    unfolding read
    status_index = read (at (codes "/status")) (codes "[]*ContainerStatusIndexEntry")
