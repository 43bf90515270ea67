-- ===== src/Vm/CloudInit.antt =====
-- virtual_machine.go's `Delete`, `UnmountCloudInitISO` and `deleteCloudInitISO`, with what they use
-- of nodes.go (`Node`, `Storages`) and storage.go (`GetContent`, `ISO`, `Delete`).
pub mod Safe
pub mod Words
pub mod Cleared
pub mod Found
pub mod Loop
mod Tests
use go_proxmox.Prelude.{
  ℕ, Bool, true, false, not, ◌&&◌, ◌||◌, Option, none, some, List, [], ◌∷◌, ◌++◌, if◌then◌else◌,
  ◌==◌, any,
}
use go_proxmox.Prelude.Text.{Text, codes, is_empty, text_eq, contains}
use go_proxmox.Prelude.Int.{ℤ, pos, eq_ℤ}
use go_proxmox.Errors.{Error, message, wrapped_two, is_not_authorized, Result, ok, err}
use go_proxmox.Errors.Decimal.{decimal}
use go_proxmox.Json.{Json}
use go_proxmox.World.{Env}
use go_proxmox.Client.{Action, ◌>>=◌, ◌>>◌, pure, raise, lift, try}
use go_proxmox.Session.Req.{get, delete}
use go_proxmox.Tasks.{Task, TaskLib, wait_for}
use go_proxmox.Vm.{VirtualMachine, make_tag, has_tag, vm_path, task_of, config, nil_dereference}

-- `Storage` and `ISO`, with what is read of them here.
pub record Storage : Type 0 where
  pub name : Text
  pub enabled : ℤ
  pub content : Text

pub record Iso : Type 0 where
  pub vol_id : Text
  pub path : Text

-- encoding/json's reading of the answers: a null ISO or listing is none, and a row of a listing is
-- its volume id, or none where it is null; `node` decodes a node's status into the node, whose name
-- it is given and may overwrite.
pub record Decoders : Type 0 where
  pub node : Text → Json → Result Text
  pub storages : Json → Result (List Storage)
  pub iso : Json → Result (Option Iso)
  pub content : Json → Result (Option (List (Option Text)))
  pub base : Text → Text

-- `hasVolume`.
unfoldable pub has_volume : List (Option Text) → Text → Bool
has_volume content volid = any (λ c. elim c [ none ↦ false | some v ↦ text_eq v volid ]) content

module _ (env : Env) (lib : TaskLib) (dec : Decoders) (calls rounds : ℕ) (v : VirtualMachine) where
  abbrev pub node_path : Text
  node_path = codes "/nodes/" ++ v.node

  abbrev pub iso_name : Text
  iso_name = codes "user-data-" ++ (decimal v.vmid ++ codes ".iso")

  abbrev pub decoded : {A : Type 0} → A → (Json → Result A) → Option Json → Result A
  decoded blank decode none = ok blank
  decoded blank decode (some j) = decode j

  unfoldable pub fetch : {A : Type 0} → Text → A → (Json → Result A) → Action A
  fetch path blank decode = get env calls path true >>= λ a. lift (decoded blank decode a)

  -- `client.Node`: that its status may not be read is no error.
  -- Its result is the node's name.
  abbrev node_outcome : Result Text → Result Text
  node_outcome (ok name) = ok name
  node_outcome (err e) = if is_not_authorized e then ok v.node else err e

  unfoldable pub client_node : Action Text
  unfolding fetch
  client_node = try (fetch (node_path ++ codes "/status") v.node (dec.node v.node)) >>= λ r.
      lift (node_outcome r)

  unfoldable pub storages : Action (List Storage)
  storages = fetch (node_path ++ codes "/storage") [] dec.storages

  abbrev pub content_path : Storage → Text
  content_path s = node_path ++ (codes "/storage/" ++ (s.name ++ codes "/content"))

  -- `Storage.GetContent`.
  unfoldable pub get_content : Storage → Action (Option (List (Option Text)))
  get_content s = fetch (content_path s) none dec.content

  abbrev pub volid : Storage → Text
  volid s = s.name ++ (codes ":iso/" ++ iso_name)

  -- `Storage.ISO`: no data is an error, and an empty volume id is filled in.
  abbrev pub with_vol_id : Storage → Option Iso → Result Iso
  with_vol_id s none =
      err (message (codes "storage " ++ (s.name ++ (codes " returned no data for " ++ volid s))))
  with_vol_id s (some i) = ok (if is_empty i.vol_id then record i { vol_id = volid s } else i)

  unfoldable pub iso : Storage → Action Iso
  iso s =
      fetch (content_path s ++ (codes "/" ++ volid s)) none dec.iso >>= λ i. lift (with_vol_id s i)

  -- `ISO.Delete`, by `deleteVolume`.
  unfoldable pub iso_delete : Storage → Iso → Action (Option Task)
  iso_delete s i =
      if is_empty i.vol_id && is_empty i.path
      then raise (message (codes "volid or path required for a delete"))
      else (delete env calls
            (content_path s
              ++ (codes "/"
                  ++ (if is_empty i.vol_id
                      then s.name ++ (codes ":iso/" ++ dec.base i.path)
                      else i.vol_id)))
            true
          >>= λ a. lift (task_of a))

  abbrev no_confirmation : Storage → Text
  no_confirmation s =
      codes "cannot confirm "
      ++ (volid s ++ (codes " is absent from storage " ++ (s.name ++ codes ": lookup: ")))

  -- What a listing says after a lookup that failed: false goes on to the next storage.
  unfoldable pub after_listing :
      Storage → Error → Result (Option (List (Option Text))) → Result Bool
  unfolding has_volume
  after_listing s ierr (err lerr) =
      err (wrapped_two (no_confirmation s) ierr (codes "; listing: ") lerr)
  after_listing s ierr (ok none) = err (
      wrapped_two (no_confirmation s) ierr (codes "; ")
        (message (codes "listing returned no data")))
  after_listing s ierr (ok (some content)) =
      if has_volume content (volid s) then err ierr else ok false

  -- What the end of the deleting task says.
  unfoldable pub after_wait : Storage → Iso → Option Error × Task → Result Bool
  after_wait s i (some e, t) = err e
  after_wait s i (none, t) =
      if t.is_successful
      then ok true
      else err (
          message (
            codes "deleting "
            ++ (i.vol_id
                ++ (codes " from storage "
                    ++ (s.name
                        ++ (codes ": task "
                            ++ (t.upid
                                ++ (codes " ended with exit status "
                                    ++ env.quote t.exit_status))))))))

  unfoldable pub after_delete : Storage → Iso → Option Task → Action Bool
  unfolding after_wait
  after_delete s i none = raise nil_dereference
  after_delete s i (some t) = wait_for env lib calls rounds 5 t >>= λ r. lift (after_wait s i r)

  unfoldable pub after_lookup : Storage → Result Iso → Action Bool
  unfolding after_listing after_delete
  after_lookup s (err ierr) = try (get_content s) >>= λ r. lift (after_listing s ierr r)
  after_lookup s (ok i) = iso_delete s i >>= after_delete s i

  -- The body of the loop for a storage that may hold the ISO: whether it was there, and is gone.
  unfoldable pub clear_storage : Storage → Action Bool
  unfolding after_lookup
  clear_storage s = try (iso s) >>= after_lookup s

  abbrev pub is_candidate : Storage → Bool
  is_candidate s = not (eq_ℤ s.enabled (pos 0)) && contains s.content (codes "iso")

  -- The loop.
  unfoldable pub clear_storages : List Storage → Action (Unit {0})
  clear_storages [] = pure tt
  clear_storages (s ∷ rest) =
      let go = clear_storages rest in
      if is_candidate s then (clear_storage s >>= λ gone. if gone then pure tt else go) else go

-- The machine as the storages of a node of this name are addressed.
abbrev pub on_node : VirtualMachine → Text → VirtualMachine
on_node v name = record v { node = name }

module _ (env : Env) (lib : TaskLib) (dec : Decoders) (calls rounds : ℕ) (v : VirtualMachine) where
  abbrev pub has_cloud_init : Bool
  has_cloud_init = elim v.config [
    | none ↦ false
    | some c ↦ (has_tag c (make_tag (codes "cloud-init"))).0
  ]

  -- `deleteCloudInitISO`; its first result is true exactly if there is no error.
  unfoldable pub delete_cloud_init_iso : Action (Unit {0})
  unfolding clear_storages client_node storages
  delete_cloud_init_iso =
      if has_cloud_init
      then (client_node env lib dec calls rounds v >>= λ name.
          storages env lib dec calls rounds (on_node v name)
          >>= clear_storages env lib dec calls rounds (on_node v name))
      else pure tt

  -- `Delete`, with its options encoded for the URL.
  unfoldable pub send_delete : Text → Action (Option Task)
  send_delete query =
      delete env calls (vm_path v ++ (codes "?" ++ query)) true >>= λ a. lift (task_of a)

  unfoldable pub delete_vm : Text → Action (Option Task)
  unfolding delete_cloud_init_iso send_delete
  delete_vm query = delete_cloud_init_iso >>= λ _. send_delete query

  -- `UnmountCloudInitISO`.
  unfoldable pub unmount_cloud_init_iso : Text → Action (Unit {0})
  unmount_cloud_init_iso device =
      if has_cloud_init
      then (config env calls v ((device, codes "none,media=cdrom") ∷ []) >>= λ _.
          delete_cloud_init_iso)
      else pure tt
