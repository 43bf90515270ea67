-- ===== src/Vm/Disks.antt =====
-- virtual_machine.go's calls on clones, migrations, disks, templates and snapshots, with `Cluster`
-- and `NextID` of cluster.go.
use go_proxmox.Prelude.{ℕ, Bool, true, not, Option, none, some, [], ◌++◌, if◌then◌else◌}
use go_proxmox.Prelude.Text.{Text, codes, is_empty}
use go_proxmox.Prelude.Int.{ℤ, pos, eq_ℤ}
use go_proxmox.Errors.{message, is_not_authorized, Result, ok, err}
use go_proxmox.Errors.Decimal.{atoi}
use go_proxmox.Json.{Json, Members, as_text}
use go_proxmox.World.{Env}
use go_proxmox.Client.{Action, ◌>>=◌, pure, lift, try}
use go_proxmox.Session.Req.{get, post, put, delete}
use go_proxmox.Tasks.{Task}
use go_proxmox.Vm.{VirtualMachine, vm_path, task_of}

-- `VirtualMachineCloneOptions` and `VirtualMachineMoveDiskOptions`: the field that the library
-- itself sets, and the others as JSON.
pub record CloneOptions : Type 0 where
  pub new_id : ℤ
  pub others : Json

pub record MoveDiskOptions : Type 0 where
  pub disk : Text
  pub others : Json

-- encoding/json: of the options, of the zero options for nil, and of a cluster's status.
pub record Encoders : Type 0 where
  pub clone : CloneOptions → Json
  pub move_disk : MoveDiskOptions → Json
  pub nothing : Json
  pub cluster : Json → Result (Unit {0})

module _ (env : Env) (calls : ℕ) (lib : Encoders) where
  abbrev cluster_answer : Option Json → Result (Unit {0})
  cluster_answer none = ok tt
  cluster_answer (some j) = lib.cluster j

  abbrev cluster_outcome : Result (Unit {0}) → Result (Unit {0})
  cluster_outcome (ok _) = ok tt
  cluster_outcome (err e) = if is_not_authorized e then ok tt else err e

  -- `client.Cluster`: that its status may not be read is no error.
  unfoldable pub cluster : Action (Unit {0})
  cluster =
      try (get env calls (codes "/cluster/status") true >>= λ a. lift (cluster_answer a)) >>= λ r.
      lift (cluster_outcome r)

  abbrev read_id : Option Json → Result ℤ
  read_id none = err (message (codes "strconv.Atoi: parsing \"\": invalid syntax"))
  read_id (some j) = elim (as_text j) [
    | err e ↦ err e
    | ok s ↦ elim (atoi s) [
      | none ↦ err (message (codes "strconv.Atoi: parsing: invalid syntax or value out of range"))
      | some n ↦ ok n
    ]
  ]

  -- `NextID`.
  unfoldable pub next_id : Action ℤ
  next_id = get env calls (codes "/cluster/nextid") true >>= λ a. lift (read_id a)

  module _ (v : VirtualMachine) where
    post_task : Text → Option Json → Action (Option Task)
    post_task name body = post env calls (vm_path v ++ name) body true >>= λ a. lift (task_of a)

    put_task : Text → Json → Action (Option Task)
    put_task name body =
        put env calls (vm_path v ++ name) (some body) true >>= λ a. lift (task_of a)

    abbrev or_zero : Option CloneOptions → CloneOptions
    or_zero none = record { new_id = pos 0; others = lib.nothing }
    or_zero (some o) = o

    abbrev clone_with : CloneOptions → Action (ℤ × Option Task)
    clone_with o = post_task (codes "/clone") (some (lib.clone o)) >>= λ t. pure (o.new_id, t)

    -- `Clone`: without an id the next free one is asked for. An id beside an error is left out.
    unfoldable pub clone : Option CloneOptions → Action (ℤ × Option Task)
    unfolding post_task cluster next_id
    clone params =
        let o = or_zero params in
        if eq_ℤ o.new_id (pos 0)
        then (cluster >>= λ _. next_id >>= λ n. clone_with (record o { new_id = n }))
        else clone_with o

    abbrev member : Text → Text → Members → Members
    member k s = Members.member k (Json.string s)

    -- `ResizeDisk`.
    unfoldable pub resize_disk : Text → Text → Action (Option Task)
    unfolding put_task
    resize_disk disk size =
        put_task (codes "/resize")
          (Json.object (member (codes "disk") disk (member (codes "size") size Members.end)))

    -- `UnlinkDisk`.
    unfoldable pub unlink_disk : Text → Bool → Action (Option Task)
    unfolding put_task
    unlink_disk disk_id force = put_task (codes "/unlink") (
        Json.object (
          member (codes "idlist") disk_id
            (if force then member (codes "force") (codes "1") Members.end else Members.end)))

    abbrev with_disk : Text → MoveDiskOptions → MoveDiskOptions
    with_disk disk o = if not (is_empty disk) then record o { disk = disk } else o

    abbrev or_no_disk : Option MoveDiskOptions → MoveDiskOptions
    or_no_disk none = record { disk = []; others = lib.nothing }
    or_no_disk (some o) = o

    -- `MoveDisk`: a disk that is named replaces that of the options.
    unfoldable pub move_disk : Text → Option MoveDiskOptions → Action (Option Task)
    unfolding post_task
    move_disk disk params =
        post_task (codes "/move_disk") (some (lib.move_disk (with_disk disk (or_no_disk params))))

    abbrev given : Option Json → Json
    given none = lib.nothing
    given (some j) = j

    -- `Migrate`, `RemoteMigrate` and `ConvertToTemplate`.
    unfoldable pub migrate : Option Json → Action (Option Task)
    unfolding post_task
    migrate params = post_task (codes "/migrate") (some (given params))

    unfoldable pub remote_migrate : Option Json → Action (Option Task)
    unfolding post_task
    remote_migrate params = post_task (codes "/remote_migrate") (some (given params))

    unfoldable pub convert_to_template : Action (Option Task)
    unfolding post_task
    convert_to_template = post_task (codes "/template") none

    -- `NewSnapshot`, and a snapshot's `Rollback` and `Delete`.
    unfoldable pub new_snapshot : Text → Action (Option Task)
    unfolding post_task
    new_snapshot name =
        post_task (codes "/snapshot")
          (some (Json.object (member (codes "snapname") name Members.end)))

    unfoldable pub rollback : Text → Action (Option Task)
    unfolding post_task
    rollback name = post_task (codes "/snapshot/" ++ (name ++ codes "/rollback")) none

    unfoldable pub delete_snapshot : Text → Action (Option Task)
    delete_snapshot name =
        delete env calls (vm_path v ++ (codes "/snapshot/" ++ name)) true >>= λ a. lift (task_of a)
