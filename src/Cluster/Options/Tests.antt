-- ===== src/Cluster/Options/Tests.antt =====
-- Runs of the law on a cluster's options.
use go_proxmox.Prelude.{Option, some, [], ◌∷◌}
use go_proxmox.Prelude.Text.{Text, codes}
use go_proxmox.Prelude.Map.{Map, lookup}
use go_proxmox.Errors.{ok}
use go_proxmox.Json.{Json, Members}
use go_proxmox.Cluster.Options.{OptionFields, ClusterOptionsResponse, ClusterOptionsUpdate}

-- The keyboard is the one field that is read and written.
abbrev keyboard_only : OptionFields
keyboard_only = record {
  Response = Option Json;
  Update = Text;
  decode = λ raw. ok (lookup (codes "keyboard") raw);
  encode = λ t. (codes "keyboard", Json.string t) ∷ [];
}

abbrev some_options : Map Json
some_options =
    (codes "keyboard", Json.string (codes "de"))
    ∷ (codes "crs", Json.string (codes "ha=static"))
    ∷ []

abbrev options_object : Json
options_object = Json.object (
    Members.member (codes "keyboard") (Json.string (codes "de"))
      (Members.member (codes "crs") (Json.string (codes "ha=static")) Members.end))

abbrev options_read : ClusterOptionsResponse keyboard_only
options_read = record {
  typed = some (Json.string (codes "de"));
  extra = (codes "crs", Json.string (codes "ha=static")) ∷ [];
}

abbrev options_changed : ClusterOptionsUpdate keyboard_only
options_changed = record { typed_update = codes "fr"; extra_update = options_read.extra }
