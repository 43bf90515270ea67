-- ===== src/Containers.antt =====
-- containers.go: a container's tags, and the call of `Config` that sends them. A container's tags
-- have the code of a virtual machine's (types.go, ContainerConfig and VirtualMachineConfig), but the
-- container itself keeps a copy of them.
pub mod Firewall
pub mod Tags
pub mod Calls
pub mod Snapshots
pub mod Clone
pub mod Scope
pub mod Within
mod Tests
use go_proxmox.Prelude.{
  ℕ, Bool, true, false, Option, none, some, List, [], ◌∷◌, ◌++◌, if◌then◌else◌,
}
use go_proxmox.Prelude.Text.{Text, codes}
use go_proxmox.Prelude.Map.{Map}
use go_proxmox.Errors.{sentinel, noop, message, Result, ok, err}
use go_proxmox.Errors.Decimal.{decimal}
use go_proxmox.Json.{Json}
use go_proxmox.World.{Env}
use go_proxmox.Client.{Action, ◌>>=◌, pure, raise, lift, try}
use go_proxmox.Session.Req.{put}
use go_proxmox.Tasks.{Task}
use go_proxmox.Vm.{
  VirtualMachineConfig, has_tag, tagged, untagged, to_members, from_options, task_of,
  nil_dereference,
}

-- `ContainerConfig`, with its tags: a nil slice is none.
pub record ContainerConfig : Type 0 where
  pub tags : Text
  pub tags_slice : Option (List Text)

-- `Container`, with what its methods here read.
pub record Container : Type 0 where
  pub config : Option ContainerConfig
  pub node : Text
  pub vmid : ℕ
  pub tags : Text

-- The same two fields of the other configuration.
abbrev pub as_vm : ContainerConfig → VirtualMachineConfig
as_vm c = record { tags = c.tags; tags_slice = c.tags_slice; boot = [] }

abbrev pub of_vm : VirtualMachineConfig → ContainerConfig
of_vm c = record { tags = c.tags; tags_slice = c.tags_slice }

abbrev pub container_path : Container → Text
container_path c = codes "/nodes/" ++ (c.node ++ (codes "/lxc/" ++ decimal c.vmid))

-- The container that a call leaves beside its result.
abbrev pub WithContainer : Type 0
WithContainer = Result (Option Task) × Container

-- What `RemoveTag` makes of the configuration; none is Go's panic.
abbrev pub removed : Option VirtualMachineConfig → Option ContainerConfig
removed none = none
removed (some c) = some (of_vm c)

module _ (env : Env) (calls : ℕ) (c : Container) where
  -- `Config`.
  unfoldable pub container_config : Map Text → Action (Option Task)
  container_config options =
      put env calls (container_path c ++ codes "/config")
        (some (Json.object (to_members (from_options options [])))) true
      >>= λ a. lift (task_of a)

-- The end of `AddTag` and `RemoveTag`: the container's copy, and the call of `Config`.
unfoldable pub send_container_tags : Env → ℕ → Container → Action WithContainer
send_container_tags env calls c =
    try (container_config env calls c ((codes "tags", c.tags) ∷ [])) >>= λ r. pure (r, c)

abbrev pub with_tags : Container → ContainerConfig → Container
with_tags c cc = record c { config = some cc; tags = cc.tags }

module _ (env : Env) (calls : ℕ) where
  -- `AddTag`; without a configuration Go panics.
  unfoldable pub add_container_tag : Container → Text → Action WithContainer
  unfolding send_container_tags
  add_container_tag c value = elim c.config [
    | none ↦ raise nil_dereference
    | some cc ↦
        if (has_tag (as_vm cc) value).0
        then pure
            (err (sentinel noop), record c { config = some (of_vm (has_tag (as_vm cc) value).1) })
        else send_container_tags env calls
            (with_tags c (of_vm (tagged (has_tag (as_vm cc) value).1 value)))
  ]

  -- `RemoveTag`; without a configuration there is no tag.
  unfoldable pub remove_container_tag : Container → Text → Action WithContainer
  unfolding send_container_tags
  remove_container_tag c value = elim c.config [
    | none ↦ pure (err (sentinel noop), c)
    | some cc ↦
        if (has_tag (as_vm cc) value).0
        then (elim (removed (untagged (has_tag (as_vm cc) value).1 value)) [
          | none ↦ raise (message (codes "panic: slice bounds out of range"))
          | some cc' ↦ send_container_tags env calls (with_tags c cc')
        ])
        else pure
            (err (sentinel noop), record c { config = some (of_vm (has_tag (as_vm cc) value).1) })
  ]
