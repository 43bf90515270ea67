-- ===== src/Vm/CloudInit/Tests.antt =====
-- A run of the law on Delete.
use go_proxmox.Prelude.{none, some, [], ◌∷◌}
use go_proxmox.Prelude.Text.{codes}
use go_proxmox.Prelude.Int.{pos}
use go_proxmox.Errors.{ok}
use go_proxmox.Client.Ends.{Ends}
use go_proxmox.Vm.{VirtualMachine}
use go_proxmox.Vm.CloudInit.{Storage, Decoders}

abbrev local : Storage
local = record { name = codes "local"; enabled = pos 1; content = codes "iso,vztmpl" }

abbrev one_storage : Decoders
one_storage = record {
  node = λ name j. ok name;
  storages = λ j. ok (local ∷ []);
  iso = λ j. ok none;
  content = λ j. ok (some (some (codes "local:iso/debian.iso") ∷ []));
  base = λ p. p;
}

abbrev with_cloud_init : VirtualMachine
with_cloud_init = record {
  config = some (record { tags = codes "web;go-proxmox+cloud-init"; tags_slice = none; boot = [] });
  node = codes "pve1";
  vmid = 100;
  status = codes "stopped";
  lock = [];
  qmp_status = [];
}
