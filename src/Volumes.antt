-- ===== src/Volumes.antt =====
-- storage.go: the cluster's storages, the volumes of a storage and its backups. No entry of a list
-- is null, and neither is a storage's answer.
use go_proxmox.Prelude.{ℕ, true, ◌&&◌, Option, none, some, List, [], ◌∷◌, ◌++◌, if◌then◌else◌, ◌==◌}
use go_proxmox.Prelude.Text.{Text, codes, is_empty}
use go_proxmox.Prelude.Map.{Map, insert}
use go_proxmox.Errors.{message, Result, ok, err}
use go_proxmox.Errors.Decimal.{decimal}
use go_proxmox.Json.{Json}
use go_proxmox.World.{Env}
use go_proxmox.Client.{Action, ◌>>=◌, raise, lift}
use go_proxmox.Session.Req.{get, delete}
use go_proxmox.Tasks.{Task}
use go_proxmox.Vm.{task_of}
use go_proxmox.Containers.Calls.{Values, read, post_task, put_task}
use go_proxmox.Upload.{Place, storage_path}

-- `Content` with its place, and encoding/json's reading of one, which may be nil; filepath.Base;
-- and encoding/json's object of a map.
pub record Content : Type 0 where
  pub node : Text
  pub storage : Text
  pub vol_id : Text
  pub path : Text

pub record ContentLib : Type 0 where
  pub content_of : Json → Result (Option Content)
  pub base : Text → Text
  pub of_map : Map Text → Json

-- `StoragePruneBackupsOptions`.
pub record StoragePruneBackupsOptions : Type 0 where
  pub prune_backups : Text
  pub kind : Text
  pub vmid : ℕ

abbrev given : Text → Text → Map Text
given key value = if is_empty value then [] else (key, value) ∷ []

-- The loop over the options of `NewClusterStorage` and `UpdateClusterStorage`.
unfoldable pub option_map : List (Text × Text) → Map Text → Map Text
option_map [] sent = sent
option_map ((k, v) ∷ options) sent = option_map options (insert k v sent)

module _ (env : Env) (calls : ℕ) (lib : Values) (contents : ContentLib) where
  open contents use {content_of, base, of_map}

  unfoldable pub cluster_storages : Action lib.Value
  unfolding read
  cluster_storages = read env calls lib (codes "/storage") (codes "ClusterStorages")

  unfoldable pub cluster_storage : Text → Action lib.Value
  unfolding read
  cluster_storage name = read env calls lib (codes "/storage/" ++ name) (codes "*ClusterStorage")

  unfoldable pub delete_cluster_storage : Text → Action (Option Task)
  delete_cluster_storage name =
      delete env calls (codes "/storage/" ++ name) true >>= λ a. lift (task_of a)

  unfoldable pub new_cluster_storage : List (Text × Text) → Action (Option Task)
  unfolding post_task option_map
  new_cluster_storage options =
      post_task env calls lib (codes "/storage") (some (of_map (option_map options [])))

  unfoldable pub update_cluster_storage : Text → List (Text × Text) → Action (Option Task)
  unfolding put_task option_map
  update_cluster_storage name options =
      put_task env calls lib (codes "/storage/" ++ name) (some (of_map (option_map options [])))

  abbrev volume_id : Place → Text → Text → Text
  volume_id p kind name = p.storage ++ (codes ":" ++ (kind ++ (codes "/" ++ name)))

  -- `errNoVolumeData`, and the place of what was read.
  unfoldable pub placed_volume : Place → Text → Text → Option Content → Result Content
  placed_volume p kind name none = err (
      message (
        codes "storage "
        ++ (p.storage ++ (codes " returned no data for " ++ volume_id p kind name))))
  placed_volume p kind name (some c) = ok (record c { node = p.node; storage = p.storage })

  abbrev content_in : Option Json → Result (Option Content)
  content_in none = ok none
  content_in (some j) = content_of j

  -- A volume of a kind, as `Backup` reads one.
  unfoldable pub read_volume : Place → Text → Text → Action Content
  unfolding placed_volume
  read_volume p kind name =
      get env calls (storage_path p (codes "/content/" ++ volume_id p kind name)) true >>= λ a.
      lift (content_in a) >>= λ c. lift (placed_volume p kind name c)

  -- `VzTmpl` and `Import` fill an empty volume id in.
  abbrev or_volume_id : Place → Text → Text → Content → Result Content
  or_volume_id p kind name c =
      ok (if is_empty c.vol_id then record c { vol_id = volume_id p kind name } else c)

  unfoldable pub vz_tmpl : Place → Text → Action Content
  unfolding read_volume
  vz_tmpl p name =
      read_volume p (codes "vztmpl") name >>= λ c. lift (or_volume_id p (codes "vztmpl") name c)

  unfoldable pub import_volume : Place → Text → Action Content
  unfolding read_volume
  import_volume p name =
      read_volume p (codes "import") name >>= λ c. lift (or_volume_id p (codes "import") name c)

  unfoldable pub backup_volume : Place → Text → Action Content
  unfolding read_volume
  backup_volume p name = read_volume p (codes "backup") name

  -- `deleteVolume`: without an id, it is made from the last part of the path.
  unfoldable pub delete_volume : Text → Content → Action (Option Task)
  delete_volume kind c =
      if is_empty c.vol_id && is_empty c.path
      then raise (message (codes "volid or path required for a delete"))
      else (delete env calls
            (storage_path (record { node = c.node; storage = c.storage })
              (codes "/content/"
                ++ (if is_empty c.vol_id
                    then c.storage ++ (codes ":" ++ (kind ++ (codes "/" ++ base c.path)))
                    else c.vol_id)))
            true
          >>= λ a. lift (task_of a))

  unfoldable pub vz_tmpl_delete : Content → Action (Option Task)
  unfolding delete_volume
  vz_tmpl_delete c = delete_volume (codes "vztmpl") c

  unfoldable pub backup_volume_delete : Content → Action (Option Task)
  unfolding delete_volume
  backup_volume_delete c = delete_volume (codes "backup") c

  -- `queryString`: the encoding of no values is empty.
  abbrev prune_params : StoragePruneBackupsOptions → Map Text
  prune_params o =
      given (codes "prune-backups") o.prune_backups
      ++ (given (codes "type") o.kind
          ++ (if o.vmid == 0 then [] else (codes "vmid", decimal o.vmid) ∷ []))

  unfoldable pub query_string : Option StoragePruneBackupsOptions → Text
  query_string none = []
  query_string (some o) = elim (prune_params o) [ [] ↦ [] | p ∷ ps ↦ lib.query (p ∷ ps) ]

  unfoldable pub prune_path : Place → Option StoragePruneBackupsOptions → Text
  unfolding query_string
  prune_path p opts =
      let q = query_string opts in
      storage_path p (codes "/prunebackups") ++ (if is_empty q then [] else codes "?" ++ q)

  unfoldable pub preview_prune_backups :
      Place → Option StoragePruneBackupsOptions → Action lib.Value
  unfolding read prune_path
  preview_prune_backups p opts = read env calls lib (prune_path p opts) (codes "[]*PruneBackupItem")

  unfoldable pub prune_backups : Place → Option StoragePruneBackupsOptions → Action (Option Task)
  unfolding prune_path
  prune_backups p opts = delete env calls (prune_path p opts) true >>= λ a. lift (task_of a)

  unfoldable pub import_metadata : Place → Text → Action lib.Value
  unfolding read
  import_metadata p volume =
      read env calls lib
        (storage_path p (codes "/import-metadata?" ++ lib.query ((codes "volume", volume) ∷ [])))
        (codes "ImportMetadata")

  unfoldable pub identity : Place → Action lib.Value
  unfolding read
  identity p = read env calls lib (storage_path p (codes "/identity")) (codes "*StorageIdentity")

  unfoldable pub storage_rrd : Place → Text → Text → Text → Action lib.Value
  unfolding read
  storage_rrd p ds timeframe cf =
      if is_empty ds
      then raise (message (codes "ds is required"))
      else read env calls lib
          (storage_path p (
            codes "/rrd?"
            ++ lib.query
                ((codes "ds", ds) ∷ ((codes "timeframe", timeframe) ∷ given (codes "cf") cf))))
          (codes "*NodeRRDImage")
