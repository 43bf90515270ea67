-- ===== src/Nodes/Tests.antt =====
-- A run of the law on the configurations of backups.
use go_proxmox.Prelude.{ℕ, ◌≡◌, refl, false, All, [], ◌∷◌, arith}
use go_proxmox.Prelude.Text.{Text, codes, text_eq}
use go_proxmox.Prelude.Map.{Map, lookup, IsFunctional}
use go_proxmox.Errors.{ok}
use go_proxmox.Json.{Json}
use go_proxmox.Session.Sample.{strict_env}
use go_proxmox.Containers.Calls.{Values}
use go_proxmox.Nodes.{trim_start, trim_end, parsed, parse_vzdump_config}
use go_proxmox.Nodes.Config.{printed, IsEntry, parse_vzdump_config-printed}

-- A struct is a number, and every answer decodes to one.
abbrev counted : Values
counted = record {
  Value = ℕ;
  decode = λ t j. ok 1;
  zero_value = λ t. 0;
  encode = λ v. Json.null;
  names = λ v. [];
  feature = λ v. false;
  url_string = λ p q. p;
  query = λ m. [];
}

abbrev two_lines : Map Text
two_lines = (codes "cores", codes "2") ∷ ((codes "net0", codes "virtio=AA:BB,bridge=vmbr0") ∷ [])

two_lines-IsFunctional : IsFunctional two_lines
unfolding lookup text_eq
two_lines-IsFunctional = (refl, (refl, tt))

two_lines-entries : All IsEntry two_lines
unfolding trim_start trim_end
two_lines-entries = ground arith

parse_vzdump_config_example :
    (fields : Map Text) × (parse_vzdump_config strict_env 2 counted
        (codes "pve1")
        (λ m. Json.null)
        (printed two_lines)
      ≡ parsed strict_env 2 counted (codes "pve1") (ok 1))
    × IsFunctional fields
    × ((k : Text) → lookup k fields ≡ lookup k two_lines)
parse_vzdump_config_example =
    parse_vzdump_config-printed strict_env 2 counted (codes "pve1") (λ m. Json.null) two_lines
      two_lines-IsFunctional two_lines-entries
