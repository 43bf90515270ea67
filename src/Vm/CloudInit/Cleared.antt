-- ===== src/Vm/CloudInit/Cleared.antt =====
-- What the loop of deleteCloudInitISO has made sure of when it ends without an error.
use go_proxmox.Prelude.{
  ℕ, ◌≡◌, ◌≢◌, ◌⊎◌, Bool, true, false, Option, none, some, List, [], ◌∷◌, ◌++◌, All,
}
use go_proxmox.Prelude.Text.{Text, codes}
use go_proxmox.Prelude.Int.{pos}
use go_proxmox.Errors.{Result, ok, err}
use go_proxmox.Errors.Decimal.{decimal}
use go_proxmox.Json.{Json}
use go_proxmox.World.{Env}
use go_proxmox.Client.{State}
use go_proxmox.Session.Req.{get, delete}
use go_proxmox.Tasks.{Task, TaskLib, wait_for}
use go_proxmox.Vm.{VirtualMachine, task_of}
use go_proxmox.Vm.CloudInit.{Storage, Iso, Decoders}
use go_proxmox.Vm.CloudInit.Words.{IsNowhere}

module _ (env : Env) (lib : TaskLib) (dec : Decoders) (calls rounds : ℕ) (v : VirtualMachine) where
  -- The volume id of the ISO on a storage, and where the storage lists its volumes.
  abbrev pub the_volume : Storage → Text
  the_volume s = s.name ++ (codes ":iso/user-data-" ++ (decimal v.vmid ++ codes ".iso"))

  abbrev pub contents : Storage → Text
  contents s = codes "/nodes/" ++ (v.node ++ (codes "/storage/" ++ (s.name ++ codes "/content")))

  -- An answer that is no ISO: an error, no data, null, or a value that does not decode.
  abbrev pub NoIso : Result (Option Json) → Type 0
  NoIso (ok (some j)) = (k : Iso) → dec.iso j ≢ ok (some k)
  NoIso _ = Unit

  -- The volume id that an ISO names, or the expected one where it names none.
  abbrev pub IsVolume : Iso → Storage → Text → Type 0
  IsVolume k s vol = ((k.vol_id ≢ []) × (vol ≡ k.vol_id)) ⊎ ((k.vol_id ≡ []) × (vol ≡ the_volume s))

  -- A storage is free of the ISO: a GET of its volume brings no ISO, and the listing that is then
  -- asked for holds no row with its volume id; or the GET brings the ISO, a DELETE of its volume is
  -- answered with a task, and that task is waited for and ends with success. The Boolean says which.
  pub data Freed (s : Storage) (t u : State) : Bool → Type 0 where
    absent :
        (a : Result (Option Json)) (t1 : State) (j : Json) (content : List (Option Text))
        → get env calls (contents s ++ (codes "/" ++ the_volume s)) true t ≡ some (a, t1)
        → NoIso a
        → get env calls (contents s) true t1 ≡ some (ok (some j), u)
        → dec.content j ≡ ok (some content)
        → All (λ o. o ≢ some (the_volume s)) content
        → Freed s t u false
    deleted :
        (j : Json) (k : Iso) (vol : Text) (a : Option Json) (task done : Task) (t1 t2 : State)
        → get env calls (contents s ++ (codes "/" ++ the_volume s)) true t ≡ some (ok (some j), t1)
        → dec.iso j ≡ ok (some k)
        → IsVolume k s vol
        → delete env calls (contents s ++ (codes "/" ++ vol)) true t1 ≡ some (ok a, t2)
        → task_of a ≡ ok (some task)
        → wait_for env lib calls rounds 5 task t2 ≡ some (ok (none, done), u)
        → done.is_successful ≡ true
        → Freed s t u true

  -- The storages that are enabled and whose content mentions "iso" are free of the ISO, in their
  -- order, up to one from which it was deleted.
  pub data Cleared : List Storage → State → State → Type 0 where
    all_free : {t u : State} → t ≡ u → Cleared [] t u
    passed :
        {s : Storage} {rest : List Storage} {t u : State}
        → (s.enabled ≡ pos 0) ⊎ IsNowhere (codes "iso") s.content
        → Cleared rest t u
        → Cleared (s ∷ rest) t u
    not_there :
        {s : Storage} {rest : List Storage} {t u : State} (t1 : State)
        → Freed s t t1 false
        → Cleared rest t1 u
        → Cleared (s ∷ rest) t u
    gone :
        {s : Storage} {rest : List Storage} {t u : State}
        → Freed s t u true
        → Cleared (s ∷ rest) t u

  abbrev pub FreedIfOk : Storage → State → Result Bool → State → Type 0
  FreedIfOk s t (ok deleted_it) u = Freed s t u deleted_it
  FreedIfOk s t (err _) u = Unit

  abbrev pub ClearedIfOk : List Storage → State → Result (Unit {0}) → State → Type 0
  ClearedIfOk l t (ok _) u = Cleared l t u
  ClearedIfOk l t (err _) u = Unit
