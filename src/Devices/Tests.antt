-- ===== src/Devices/Tests.antt =====
-- Runs of the laws on indexed devices.
use go_proxmox.Prelude.{inl, inr, subst, ◌≡◌, refl, ◌↔◌, ◌⊎◌, some, [], ◌∷◌}
use go_proxmox.Prelude.Text.{Text, codes, text_eq}
use go_proxmox.Prelude.Text.Laws.{text-cases}
use go_proxmox.Prelude.Int.{pos}
use go_proxmox.Prelude.Map.{Map, lookup, IsFunctional}
use go_proxmox.Json.{Json}
use go_proxmox.Devices.{indexed_device_key, field, route_all, merge_disks, vm_prefixes}
use go_proxmox.Devices.Key.{IsIndexed, indexed_device_key_iff}
use go_proxmox.Devices.Routes.{route_all_order}
use go_proxmox.Devices.Place.{Says, route_all_iff}
use go_proxmox.Devices.Disks.{IsDisk, merge_disks_iff}

-- Two disks, a network device, and two keys that only look like devices.
abbrev raw_config : Map Json
raw_config =
    (codes "scsi0", Json.string (codes "local:vm-100-disk-0"))
    ∷ (codes "scsihw", Json.string (codes "virtio-scsi-pci"))
    ∷ (codes "net10", Json.string (codes "virtio,bridge=vmbr0"))
    ∷ (codes "ide2", Json.string (codes "none,media=cdrom"))
    ∷ (codes "cores", Json.number (pos 4))
    ∷ []

abbrev walked_otherwise : Map Json
walked_otherwise =
    (codes "ide2", Json.string (codes "none,media=cdrom"))
    ∷ (codes "scsi0", Json.string (codes "local:vm-100-disk-0"))
    ∷ []

abbrev walked : Map Json
walked =
    (codes "scsi0", Json.string (codes "local:vm-100-disk-0"))
    ∷ (codes "ide2", Json.string (codes "none,media=cdrom"))
    ∷ []

raw_config-IsFunctional : IsFunctional raw_config
unfolding lookup text_eq
raw_config-IsFunctional = (refl, (refl, (refl, (refl, (refl, tt)))))

walked-IsFunctional : IsFunctional walked
unfolding lookup text_eq
walked-IsFunctional = (refl, (refl, tt))

walked_otherwise-IsFunctional : IsFunctional walked_otherwise
unfolding lookup text_eq
walked_otherwise-IsFunctional = (refl, (refl, tt))

same_object : (k : Text) → lookup k walked ≡ lookup k walked_otherwise
unfolding lookup text_eq
same_object k = elim (text-cases (codes "scsi0") k) [
  | inl (e, s) ↦ subst (λ x. lookup x walked ≡ lookup x walked_otherwise) s refl
  | inr (e, _) ↦ rw e refl
]

indexed_device_key_example :
    (indexed_device_key (codes "net10") ≡ some (codes "net"))
    ↔ IsIndexed (codes "net10") (codes "net")
indexed_device_key_example = indexed_device_key_iff (codes "net10") (codes "net")

route_all_example :
    (lookup (codes "net10") (field (codes "net") (route_all vm_prefixes raw_config []))
      ≡ some (codes "virtio,bridge=vmbr0"))
    ↔ (Says vm_prefixes
          (codes "net")
          (codes "net10")
          (lookup (codes "net10") raw_config)
          (codes "virtio,bridge=vmbr0")
        ⊎ (((s' : Text)
              → Says vm_prefixes
                  (codes "net")
                  (codes "net10")
                  (lookup (codes "net10") raw_config)
                  s'
              → ⊥)
            × (lookup (codes "net10") (field (codes "net") [])
                ≡ some (codes "virtio,bridge=vmbr0"))))
route_all_example =
    route_all_iff vm_prefixes raw_config [] (codes "net") (codes "net10")
      (codes "virtio,bridge=vmbr0") raw_config-IsFunctional

route_all_order_example :
    lookup (codes "ide2") (field (codes "ide") (route_all vm_prefixes walked []))
    ≡ lookup (codes "ide2") (field (codes "ide") (route_all vm_prefixes walked_otherwise []))
route_all_order_example =
    route_all_order vm_prefixes walked walked_otherwise [] walked-IsFunctional
      walked_otherwise-IsFunctional same_object (codes "ide") (codes "ide2")

merge_disks_example :
    (lookup (codes "ide2") (merge_disks (route_all vm_prefixes raw_config []))
      ≡ some (codes "none,media=cdrom"))
    ↔ IsDisk (codes "ide2") (lookup (codes "ide2") raw_config) (codes "none,media=cdrom")
merge_disks_example =
    merge_disks_iff raw_config (codes "ide2") (codes "none,media=cdrom") raw_config-IsFunctional
