-- ===== src/Vm/Tests.antt =====
-- Runs of the laws on virtual machines.
use go_proxmox.Prelude.{◌≡◌, refl, ◌≢◌, true, not, ◌&&◌, ◌||◌, none, some, [], arith}
use go_proxmox.Prelude.Text.{Text, codes, text_eq, split, is_empty}
use go_proxmox.Vm.{VirtualMachine, VirtualMachineConfig, has_tag, tagged, untagged, ensure_split}
use go_proxmox.Vm.Tags.{IsCoherent, tags_of, tagged-IsCoherent}
use go_proxmox.Vm.Untag.{IsDistinct, untagged-IsCoherent}
use go_proxmox.Vm.Power.{
  is_running, is_stopped, is_paused, is_hibernated, at_most_one, power_states,
}

abbrev two_tags : VirtualMachineConfig
two_tags = record { tags = codes "web;db"; tags_slice = none; boot = [] }

db_ne : codes "db" ≢ []
db_ne e = cc

two_tags-IsDistinct : IsDistinct (tags_of two_tags)
unfolding ensure_split split
two_tags-IsDistinct = ground arith

db_there : (has_tag two_tags (codes "db")).0 ≡ true
unfolding has_tag split text_eq
db_there = refl

tagged-IsCoherent_example :
    IsCoherent (tagged (has_tag two_tags (codes "gpu")).1 (codes "gpu"))
    × ((x : Text)
        → x ≢ []
        → (has_tag (tagged (has_tag two_tags (codes "gpu")).1 (codes "gpu")) x).0
          ≡ ((has_tag two_tags x).0 || text_eq (codes "gpu") x))
tagged-IsCoherent_example = tagged-IsCoherent two_tags (codes "gpu") tt (ground arith)

untagged-IsCoherent_example :
    (c' : VirtualMachineConfig) × (untagged (has_tag two_tags (codes "db")).1 (codes "db")
      ≡ some c')
    × IsCoherent c'
    × ((x : Text)
        → x ≢ []
        → (has_tag c' x).0 ≡ ((has_tag two_tags x).0 && not (text_eq (codes "db") x)))
untagged-IsCoherent_example =
    untagged-IsCoherent two_tags (codes "db") tt two_tags-IsDistinct db_ne db_there

abbrev suspended_vm : VirtualMachine
suspended_vm = record {
  config = some two_tags;
  node = codes "pve1";
  vmid = 100;
  status = codes "stopped";
  lock = codes "suspended";
  qmp_status = [];
}

power_states_example :
    (at_most_one
        (is_running suspended_vm)
        (is_stopped suspended_vm)
        (is_paused suspended_vm)
        (is_hibernated suspended_vm)
      ≡ true)
    × ((is_stopped suspended_vm || is_hibernated suspended_vm)
        ≡ text_eq (codes "stopped") (codes "stopped"))
    × ((is_running suspended_vm || is_paused suspended_vm) ≡ (
        text_eq (codes "stopped") (codes "running")
        && (is_empty [] || (text_eq [] (codes "running") || text_eq [] (codes "paused")))))
power_states_example = power_states suspended_vm
