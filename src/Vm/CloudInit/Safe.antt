-- ===== src/Vm/CloudInit/Safe.antt =====
-- When Delete asks for the deletion of the virtual machine.
use go_proxmox.Prelude.{ℕ, ◌≡◌, true, Option, none, some, ◌++◌, List, []}
use go_proxmox.Prelude.Text.{Text, codes}
use go_proxmox.Errors.{Error, Result, ok, err}
use go_proxmox.World.{Env}
use go_proxmox.Client.{State}
use go_proxmox.Client.Ends.{Ends}
use go_proxmox.Json.{Json}
use go_proxmox.Session.Req.{get}
use go_proxmox.Tasks.{Task, TaskLib}
use go_proxmox.Vm.{VirtualMachine}
use go_proxmox.Vm.CloudInit.Words.{IsUntagged}
use go_proxmox.Vm.CloudInit.{
  Storage, Decoders, client_node, on_node, storages, delete_cloud_init_iso, send_delete,
}
use go_proxmox.Vm.CloudInit.Cleared.{Cleared}

module _ (env : Env) (lib : TaskLib) (dec : Decoders) (calls rounds : ℕ) (v : VirtualMachine) where
  -- An answer to a listing of a node's storages.
  abbrev pub HasRows : Option Json → List Storage → Type 0
  HasRows none l = l ≡ []
  HasRows (some j) l = dec.storages j ≡ ok l

  abbrev pub Listing : Text → State → Result (List Storage) → State → Type 0
  Listing name s (ok l) t =
      (a : Option Json) × (get env calls (codes "/nodes/" ++ (name ++ codes "/storage")) true s
        ≡ some (ok a, t))
      × HasRows a l
  Listing name s (err e) t = Unit

  -- No ISO is left behind between two states: the machine has no cloud-init tag, or the node's
  -- storages were listed and cleared.
  pub data NoIsoLeft (s t : State) : Type 0 where
    untagged : IsUntagged v.config → t ≡ s → NoIsoLeft s t
    cleared :
        (name : Text) (l : List Storage) (s1 s2 : State)
        → client_node env lib dec calls rounds v s ≡ some (ok name, s1)
        → Listing name s1 (ok l) s2
        → Cleared env lib dec calls rounds (on_node v name) l s2 t
        → NoIsoLeft s t

  -- How `Delete` ends.
  pub data Deletion (query : Text) (s : State) (r : Result (Option Task)) (t : State) : Type 0 where
    refused :
        (e : Error)
        → delete_cloud_init_iso env lib dec calls rounds v s ≡ some (err e, t)
        → r ≡ err e
        → Deletion query s r t
    asked :
        (s1 : State)
        → NoIsoLeft s s1
        → send_delete env lib dec calls rounds v query s1 ≡ some (r, t)
        → Deletion query s r t

  abbrev pub SafeIfOk : State → Result (Unit {0}) → State → Type 0
  SafeIfOk s (ok _) t = NoIsoLeft s t
  SafeIfOk s (err _) t = Unit
