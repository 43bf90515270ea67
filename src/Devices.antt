-- ===== src/Devices.antt =====
-- The indexed devices of a configuration, "net0" or "scsi3": types.go's `indexedDeviceKey`,
-- `indexedDeviceMaps` and the walk of `UnmarshalJSON` over the raw object, for virtual machines and
-- for containers, and virtual_machine_config.go's `MergeDisks`.
pub mod Key
pub mod Routes
pub mod Place
pub mod Disks
mod Tests
use go_proxmox.Prelude.{
  ℕ, Bool, true, false, Option, none, some, List, [], ◌∷◌, ◌++◌, if◌then◌else◌, all, any,
}
use go_proxmox.Prelude.Text.{Text, codes, is_digit, is_empty, text_eq}
use go_proxmox.Prelude.Map.{Map, lookup, insert, insert_all}
use go_proxmox.Errors.{Result, ok, err}
use go_proxmox.Json.{Json, as_text}

-- The loops of `indexedDeviceKey` from an index on: what stands before the index, and the rest.
unfoldable pub key_from : Text → Text → Option Text
key_from before [] = none
key_from before (c ∷ rest) =
    if is_digit c
    then (if is_empty before then none else if all is_digit rest then some before else none)
    else key_from (before ++ (c ∷ [])) rest

-- `indexedDeviceKey`; `none` is its second result.
unfoldable pub indexed_device_key : Text → Option Text
indexed_device_key k = key_from [] k

-- The maps of a configuration, under the prefix of their keys. A nil map reads as an empty one.
abbrev pub Devices : Type 0
Devices = Map (Map Text)

abbrev pub or_empty : Option (Map Text) → Map Text
or_empty none = []
or_empty (some m) = m

abbrev pub field : Text → Devices → Map Text
field prefix d = or_empty (lookup prefix d)

-- The prefixes of `indexedDeviceMaps` of a virtual machine, and of a container.
abbrev pub vm_prefixes : List Text
vm_prefixes =
    codes "ide"
    ∷ codes "scsi"
    ∷ codes "sata"
    ∷ codes "virtio"
    ∷ codes "unused"
    ∷ codes "net"
    ∷ codes "numa"
    ∷ codes "hostpci"
    ∷ codes "serial"
    ∷ codes "usb"
    ∷ codes "parallel"
    ∷ codes "ipconfig"
    ∷ []

abbrev pub container_prefixes : List Text
container_prefixes = codes "dev" ∷ codes "mp" ∷ codes "net" ∷ codes "unused" ∷ []

module _ (prefixes : List Text) where
  -- Where a value goes: the map's prefix and the string, or nowhere.
  unfoldable pub destination : Text → Json → Option (Text × Text)
  unfolding indexed_device_key
  destination k v = elim (indexed_device_key k) [
    | none ↦ none
    | some prefix ↦
        if any (λ p. text_eq p prefix) prefixes
        then (elim (as_text v) [ err e ↦ none | ok s ↦ some (prefix, s) ])
        else none
  ]

  abbrev pub place : Text → Option (Text × Text) → Devices → Devices
  place k none d = d
  place k (some (prefix, s)) d = insert prefix (insert k s (field prefix d)) d

  -- The walk over the raw object, in the order in which Go's `range` happens to give its keys.
  unfoldable pub route_all : Map Json → Devices → Devices
  unfolding destination
  route_all [] d = d
  route_all ((k, v) ∷ raw) d = route_all raw (place k (destination k v) d)

-- `MergeDisks`.
unfoldable pub merge_disks : Devices → Map Text
merge_disks d = insert_all (field (codes "virtio") d) (
    insert_all (field (codes "sata") d)
      (insert_all (field (codes "scsi") d) (insert_all (field (codes "ide") d) [])))
