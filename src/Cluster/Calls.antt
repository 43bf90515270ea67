-- ===== src/Cluster/Calls.antt =====
-- cluster.go: the calls on a cluster but its status. Type names are Go's; no entry of a list is null.
use go_proxmox.Prelude.{ℕ, true, false, Option, List, [], ◌∷◌, ◌++◌, Bool, if◌then◌else◌}
use go_proxmox.Prelude.Text.{Text, codes, is_empty, contains}
use go_proxmox.Errors.{Error, message, error_text, Result, ok, err}
use go_proxmox.Errors.Decimal.{decimal}
use go_proxmox.Json.{Json}
use go_proxmox.World.{Env}
use go_proxmox.Client.{Action, ◌>>=◌, pure, raise, try}
use go_proxmox.Session.Req.{get, post, put, delete}
use go_proxmox.Containers.Calls.{Values, read, or_blank}
use go_proxmox.Cluster.Named.{TextFields}
use go_proxmox.Pools.{filter_text}

module _ (env : Env) (calls : ℕ) (lib : Values) (fields : TextFields lib) where
  open fields use {text_field, set_text}

  -- `CheckID`, whose answer is not kept.
  unfoldable pub id_is_free : ℕ → Result (Option Json) → Action Bool
  id_is_free vmid (ok _) = pure true
  id_is_free vmid (err e) =
      if contains (error_text env.status_text env.quote e)
        (codes "VM " ++ (decimal vmid ++ codes " already exists"))
      then pure false
      else raise e

  unfoldable pub check_id : ℕ → Action Bool
  unfolding id_is_free
  check_id vmid =
      try (get env calls (codes "/cluster/nextid?vmid=" ++ decimal vmid) true) >>= id_is_free vmid

  unfoldable pub resources : List Text → Action lib.Value
  unfolding read filter_text
  resources filters =
      let f = filter_text filters in
      read env calls lib
        (lib.url_string (codes "/cluster/resources")
          (if is_empty f then [] else lib.query ((codes "type", f) ∷ [])))
        (codes "ClusterResources")

  unfoldable pub backups : Action lib.Value
  unfolding read
  backups = read env calls lib (codes "/cluster/backup") (codes "ClusterBackups")

  abbrev pub no_backup_id : Error
  no_backup_id = message (codes "backup id can not be empty")

  unfoldable pub backup : Text → Action lib.Value
  unfolding read
  backup id =
      if is_empty id
      then raise no_backup_id
      else (read env calls lib (codes "/cluster/backup/" ++ id) (codes "ClusterBackup") >>= λ b.
          pure (set_text (codes "ID") id b))

  unfoldable pub new_backup : Option lib.Value → Action (Option Json)
  new_backup opts =
      post env calls (codes "/cluster/backup")
        (or_blank env calls lib (codes "ClusterBackupOptions") opts) false

  unfoldable pub backup_update : lib.Value → Option lib.Value → Action (Option Json)
  backup_update b opts =
      if is_empty (text_field (codes "ID") b)
      then raise no_backup_id
      else put env calls (codes "/cluster/backup/" ++ text_field (codes "ID") b)
          (or_blank env calls lib (codes "ClusterBackupOptions") opts) false

  unfoldable pub backup_delete : lib.Value → Action (Option Json)
  backup_delete b =
      if is_empty (text_field (codes "ID") b)
      then raise no_backup_id
      else delete env calls (codes "/cluster/backup/" ++ text_field (codes "ID") b) false

  unfoldable pub cluster_tasks : Action lib.Value
  unfolding read
  cluster_tasks = read env calls lib (codes "/cluster/tasks") (codes "Tasks")
