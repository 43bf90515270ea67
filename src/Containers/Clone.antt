-- ===== src/Containers/Clone.antt =====
-- containers.go: `Clone`, with `Cluster` and `NextID` of cluster.go.
use go_proxmox.Prelude.{ℕ, true, not, Option, none, some, ◌++◌, if◌then◌else◌}
use go_proxmox.Prelude.Text.{codes}
use go_proxmox.Prelude.Int.{ℤ, pos, ltb_ℤ}
use go_proxmox.World.{Env}
use go_proxmox.Client.{Action, ◌>>=◌, pure, lift}
use go_proxmox.Session.Req.{post}
use go_proxmox.Tasks.{Task}
use go_proxmox.Vm.{task_of}
use go_proxmox.Vm.Disks.{CloneOptions, Encoders, cluster, next_id}
use go_proxmox.Containers.{Container, container_path}

module _ (env : Env) (calls : ℕ) (lib : Encoders) (c : Container) where
  -- Nil options are blank ones.
  abbrev or_zero : Option CloneOptions → CloneOptions
  or_zero none = record { new_id = pos 0; others = lib.nothing }
  or_zero (some o) = o

  abbrev clone_with : CloneOptions → Action (ℤ × Option Task)
  clone_with o =
      post env calls (container_path c ++ codes "/clone") (some (lib.clone o)) true >>= λ a.
      lift (task_of a) >>= λ t. pure (o.new_id, t)

  -- `Clone`: without a positive id the next free one is asked for. An id beside an error is left
  -- out.
  unfoldable pub container_clone : Option CloneOptions → Action (ℤ × Option Task)
  container_clone params =
      let o = or_zero params in
      if not (ltb_ℤ (pos 0) o.new_id)
      then (cluster env calls lib >>= λ _.
          next_id env calls lib >>= λ n. clone_with (record o { new_id = n }))
      else clone_with o
