-- ===== src/Firewall/Params.antt =====
-- cluster_firewall.go: the parameters of the deletion of an IP set and of its entries. A number is
-- printed as fmt prints it.
use go_proxmox.Prelude.{Bool, Option, none, some, [], ◌∷◌, if◌then◌else◌}
use go_proxmox.Prelude.Text.{Text, codes, is_empty}
use go_proxmox.Containers.Calls.{Values}

module _ (lib : Values) where
  -- `ipSetDeleteParams` and `ipSetEntryDeleteParams`, encoded by `dataParserForURL`.
  unfoldable pub ipset_delete_params : Bool → Option Text
  ipset_delete_params force =
      if force then some (lib.query ((codes "force", codes "1") ∷ [])) else none

  unfoldable pub ipset_entry_delete_params : Text → Option Text
  ipset_entry_delete_params digest =
      if is_empty digest then none else some (lib.query ((codes "digest", digest) ∷ []))
