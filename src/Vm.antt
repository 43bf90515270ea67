-- ===== src/Vm.antt =====
-- virtual_machine.go: a machine's tags, its power states and the calls that change them. The
-- configuration keeps only its tags and its boot order (types.go, VirtualMachineConfig).
pub mod Firewall
pub mod Tags
pub mod Power
pub mod Remove
pub mod Untag
pub mod TagSet
pub mod CloudInit
pub mod Disks
mod Tests
use Prim.Native.Nat.{zero, suc}
use go_proxmox.Prelude.{
  ℕ, ◌+◌, ◌-◌, Bool, true, false, not, ◌&&◌, ◌||◌, Option, none, some, List, [], ◌∷◌, ◌++◌,
  if◌then◌else◌, leb, any, length, get_elem?, take, drop,
}
use go_proxmox.Prelude.Text.{Text, codes, is_empty, text_eq, split, join}
use go_proxmox.Prelude.Map.{Map, insert}
use go_proxmox.Errors.{Error, sentinel, noop, message, Result, ok, err}
use go_proxmox.Errors.Decimal.{decimal}
use go_proxmox.Json.{Json, Members, as_text}
use go_proxmox.World.{Env}
use go_proxmox.Client.{Action, ◌>>=◌, ◌>>◌, pure, raise, lift, try}
use go_proxmox.Session.Req.{get, post, put, delete}
use go_proxmox.Tasks.{Task, new_task}

-- `VirtualMachineConfig`: a nil slice is none.
pub record VirtualMachineConfig : Type 0 where
  pub tags : Text
  pub tags_slice : Option (List Text)
  pub boot : Text

-- `VirtualMachine`, with what its methods here read.
pub record VirtualMachine : Type 0 where
  pub config : Option VirtualMachineConfig
  pub node : Text
  pub vmid : ℕ
  pub status : Text
  pub lock : Text
  pub qmp_status : Text

abbrev pub tag_seperator : ℕ
tag_seperator = b';'

-- `MakeTag`.
unfoldable pub make_tag : Text → Text
make_tag v = codes "go-proxmox+" ++ v

-- `SplitTags`.
unfoldable pub split_tags : VirtualMachineConfig → VirtualMachineConfig
split_tags c = record c { tags_slice = some (split tag_seperator c.tags) }

-- `if c.TagsSlice == nil { v.SplitTags() }`.
unfoldable pub ensure_split : VirtualMachineConfig → VirtualMachineConfig
unfolding split_tags
ensure_split c = elim c.tags_slice [ none ↦ split_tags c | some _ ↦ c ]

-- The slice as it is ranged over.
abbrev pub slice_of : VirtualMachineConfig → List Text
slice_of c = elim c.tags_slice [ none ↦ [] | some l ↦ l ]

-- `HasTag` where there is a configuration: the answer, and the configuration as it leaves it.
unfoldable pub has_tag : VirtualMachineConfig → Text → Bool × VirtualMachineConfig
unfolding ensure_split
has_tag c value =
    if is_empty c.tags
    then (false, c)
    else (any (λ tag. text_eq tag value) (slice_of (ensure_split c)), ensure_split c)

-- What `AddTag` makes of the configuration.
unfoldable pub tagged : VirtualMachineConfig → Text → VirtualMachineConfig
unfolding ensure_split
tagged c value =
    let l = slice_of (ensure_split c) ++ (value ∷ []) in
    record c { tags_slice = some l; tags = join (codes ";") l }

-- `append(l[:i], l[i+1:]...)` for a slice of length `len` on the array `a`: the elements above `i`
-- move down in place, and the array keeps its last ones.
unfoldable pub shift_down : ℕ → ℕ → List Text → List Text
shift_down i len a = take i a ++ (drop (i + 1) (take len a) ++ drop (len - 1) a)

-- A round of the loop of `RemoveTag` at the index `i`, where it ranges over `tag`: the array and
-- the length of the configuration's slice, changed if the tag is the value. `none` is Go's panic
-- on slice bounds.
abbrev pub remove_at :
    (List Text → ℕ → Option (List Text × ℕ))
    → ℕ
    → Text
    → List Text
    → ℕ
    → Option Text
    → Option (List Text × ℕ)
remove_at next i value a len none = none
remove_at next i value a len (some tag) =
    if text_eq tag value && not (leb (i + 1) len)
    then none
    else next (if text_eq tag value then shift_down i len a else a)
        (if text_eq tag value then len - 1 else len)

-- The loop from the index `i` on. It ranges over the slice as it was at the start, of which `left`
-- elements are to come, while its body changes the array under it.
unfoldable pub remove_from : ℕ → ℕ → Text → List Text → ℕ → Option (List Text × ℕ)
remove_from zero i value a len = some (a, len)
remove_from (suc left) i value a len =
    remove_at (remove_from left (i + 1) value) i value a len (get_elem? a i)

abbrev pub with_slice : VirtualMachineConfig → Option (List Text × ℕ) → Option VirtualMachineConfig
with_slice c none = none
with_slice c (some (a, len)) =
    some (record c { tags_slice = some (take len a); tags = join (codes ";") (take len a) })

-- What `RemoveTag` makes of the configuration.
unfoldable pub untagged : VirtualMachineConfig → Text → Option VirtualMachineConfig
unfolding ensure_split remove_from
untagged c value =
    let l = slice_of (ensure_split c) in with_slice c (remove_from (length l) 0 value l (length l))

abbrev pub vm_path : VirtualMachine → Text
vm_path v = codes "/nodes/" ++ (v.node ++ (codes "/qemu/" ++ decimal v.vmid))

abbrev pub to_members : Map Text → Members
to_members [] = Members.end
to_members ((k, v) ∷ m) = Members.member k (Json.string v) (to_members m)

-- `data[opt.Name] = opt.Value` for each option.
abbrev pub from_options : Map Text → Map Text → Map Text
from_options [] m = m
from_options ((k, v) ∷ opts) m = from_options opts (insert k v m)

-- A UPID in the answer, and its task.
unfoldable pub task_of : Option Json → Result (Option Task)
task_of none = ok (new_task [])
task_of (some v) = elim (as_text v) [ err e ↦ err e | ok u ↦ ok (new_task u) ]

-- The configuration that a call leaves beside its result.
abbrev pub WithConfig : Type 0
WithConfig = Result (Option Task) × VirtualMachineConfig

abbrev pub nil_dereference : Error
nil_dereference = message (codes "panic: nil pointer dereference")

module _ (env : Env) (calls : ℕ) (v : VirtualMachine) where
  -- `Config`: an error's task is nil, since its UPID is empty.
  unfoldable pub config : Map Text → Action (Option Task)
  config options =
      post env calls (vm_path v ++ codes "/config")
        (some (Json.object (to_members (from_options options [])))) true
      >>= λ a. lift (task_of a)

  -- The call of `Config` with which `AddTag` and `RemoveTag` end.
  unfoldable pub send_tags : VirtualMachineConfig → Action WithConfig
  send_tags c = try (config ((codes "tags", c.tags) ∷ [])) >>= λ r. pure (r, c)

  -- `AddTag`; without a configuration Go panics.
  unfoldable pub add_tag : Text → Action WithConfig
  unfolding send_tags
  add_tag value = elim v.config [
    | none ↦ raise nil_dereference
    | some c ↦
        if (has_tag c value).0
        then pure (err (sentinel noop), (has_tag c value).1)
        else send_tags (tagged (has_tag c value).1 value)
  ]

  -- `RemoveTag`; without a configuration there is no tag.
  unfoldable pub remove_tag : Text → Action WithConfig
  unfolding send_tags
  remove_tag value = elim v.config [
    | none ↦ raise (sentinel noop)
    | some c ↦
        if (has_tag c value).0
        then (elim (untagged (has_tag c value).1 value) [
          | none ↦ raise (message (codes "panic: slice bounds out of range"))
          | some c' ↦ send_tags c'
        ])
        else pure (err (sentinel noop), (has_tag c value).1)
  ]
