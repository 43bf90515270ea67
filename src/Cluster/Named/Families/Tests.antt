-- ===== src/Cluster/Named/Families/Tests.antt =====
-- Runs of the law on named entries.
use go_proxmox.Prelude.{false, []}
use go_proxmox.Prelude.Text.{Text, codes}
use go_proxmox.Errors.{ok}
use go_proxmox.Json.{Json, Members}
use go_proxmox.Containers.Calls.{Values}
use go_proxmox.Cluster.Named.{TextFields}

-- A struct is its id.
abbrev ids : Values
ids = record {
  Value = Text;
  decode = λ t j. ok [];
  zero_value = λ t. [];
  encode = λ v. Json.object (Members.member (codes "id") (Json.string v) Members.end);
  names = λ v. [];
  feature = λ v. false;
  url_string = λ p q. p;
  query = λ m. [];
}

abbrev id_field : TextFields ids
id_field = record { text_field = λ k v. v; set_text = λ k t v. t }
