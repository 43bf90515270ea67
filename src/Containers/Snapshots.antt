-- ===== src/Containers/Snapshots.antt =====
-- containers.go: a container's snapshots.
use go_proxmox.Prelude.{ℕ, Bool, true, false, Option, some, List, ◌++◌, map}
use go_proxmox.Prelude.Text.{Text, codes}
use go_proxmox.Errors.Decimal.{decimal}
use go_proxmox.Json.{Json}
use go_proxmox.World.{Env}
use go_proxmox.Client.{Action, ◌>>=◌, pure, lift}
use go_proxmox.Session.Req.{put, delete}
use go_proxmox.Tasks.{Task}
use go_proxmox.Vm.{task_of}
use go_proxmox.Containers.{Container, container_path}
use go_proxmox.Containers.Calls.{Values, read, post_task, or_blank, one}

-- `ContainerSnapshot`: the handle.
pub record ContainerSnapshot : Type 0 where
  pub node : Text
  pub vmid : ℕ
  pub name : Text

abbrev pub snapshot_path : ContainerSnapshot → Text
snapshot_path s =
    codes "/nodes/"
    ++ (s.node ++ (codes "/lxc/" ++ (decimal s.vmid ++ (codes "/snapshot/" ++ s.name))))

-- `Container.Snapshot`.
unfoldable pub snapshot : Container → Text → ContainerSnapshot
snapshot c name = record { node = c.node; vmid = c.vmid; name = name }

module _ (env : Env) (calls : ℕ) (lib : Values) where
  module _ (c : Container) where
    -- `Snapshots`, which wires every snapshot to the container, and `NewSnapshot`.
    unfoldable pub snapshots : Action (List ContainerSnapshot)
    unfolding read snapshot
    snapshots =
        read env calls lib (container_path c ++ codes "/snapshot") (codes "[]*ContainerSnapshot")
        >>= λ v. pure (map (λ name. snapshot c name) (lib.names v))

    unfoldable pub container_new_snapshot : Text → Action (Option Task)
    unfolding post_task
    container_new_snapshot name =
        post_task env calls lib (container_path c ++ codes "/snapshot")
          (some (Json.object (one (codes "snapname") (Json.string name))))

  module _ (s : ContainerSnapshot) where
    -- `Rollback`, `Delete`, `Config`, `UpdateConfig` and `SubResources` of a snapshot.
    unfoldable pub snapshot_rollback : Bool → Action (Option Task)
    unfolding post_task
    snapshot_rollback start =
        post_task env calls lib (snapshot_path s ++ codes "/rollback")
          (some (Json.object (one (codes "start") (Json.boolean start))))

    unfoldable pub snapshot_delete : Action (Option Task)
    snapshot_delete = delete env calls (snapshot_path s) true >>= λ a. lift (task_of a)

    unfoldable pub snapshot_config : Action lib.Value
    unfolding read
    snapshot_config =
        read env calls lib (snapshot_path s ++ codes "/config") (codes "map[string]interface{}")

    unfoldable pub snapshot_update_config : Option lib.Value → Action (Option Json)
    snapshot_update_config options =
        put env calls (snapshot_path s ++ codes "/config")
          (or_blank env calls lib (codes "ContainerSnapshotUpdateOptions") options) false

    unfoldable pub snapshot_sub_resources : Action lib.Value
    unfolding read
    snapshot_sub_resources =
        read env calls lib (snapshot_path s) (codes "[]*ContainerSnapshotIndexEntry")
