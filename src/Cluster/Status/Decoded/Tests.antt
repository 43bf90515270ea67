-- ===== src/Cluster/Status/Decoded/Tests.antt =====
-- Runs of the law on a cluster's status.
use go_proxmox.Prelude.{◌≡◌, refl, List, [], ◌∷◌, All}
use go_proxmox.Prelude.Text.{Text, codes, text_eq}
use go_proxmox.Prelude.Int.{pos}
use go_proxmox.Errors.{ok}
use go_proxmox.Json.{Json, Items, Members, as_list, as_map}
use go_proxmox.Tasks.{◌>=>◌}
use go_proxmox.Tasks.Log.{maps_of}
use go_proxmox.Prelude.Map.{Map, insert}
use go_proxmox.Cluster.{Cluster, unmarshal_cluster}
use go_proxmox.Cluster.Status.{IsReadable, status_of, Reads}
use go_proxmox.Cluster.Status.Decoded.{unmarshal_cluster_lem}

abbrev blank : Cluster
blank = record { version = pos 0; quorate = pos 0; nodes = []; name = []; id = [] }

abbrev a_node : Text → Members → Json
a_node name more = Json.object (
    Members.member (codes "type") (Json.string (codes "node"))
      (Members.member (codes "name") (Json.string name) more))

abbrev a_status : Json
a_status = Json.array (
    Items.cons
      (Json.object (
        Members.member (codes "type") (Json.string (codes "cluster"))
          (Members.member (codes "version") (Json.number (pos 3)) Members.end)))
      (Items.cons
        (a_node (codes "pve1") (Members.member (codes "online") (Json.number (pos 1)) Members.end))
        (Items.cons (a_node (codes "pve2") Members.end) Items.nil)))

abbrev some_entries : List (Map Json)
some_entries =
    ((codes "type", Json.string (codes "cluster")) ∷ (codes "version", Json.number (pos 3)) ∷ [])
    ∷ ((codes "type", Json.string (codes "node"))
        ∷ (codes "name", Json.string (codes "pve1"))
        ∷ (codes "online", Json.number (pos 1))
        ∷ [])
    ∷ ((codes "type", Json.string (codes "node")) ∷ (codes "name", Json.string (codes "pve2")) ∷ [])
    ∷ []

a_status_rows : (as_list a_status >=> maps_of) ≡ ok some_entries
unfolding as_list as_map insert text_eq
a_status_rows = refl

unmarshal_cluster_example :
    Reads
      (All IsReadable some_entries)
      (status_of some_entries blank)
      (unmarshal_cluster blank a_status)
unmarshal_cluster_example = unmarshal_cluster_lem blank a_status some_entries a_status_rows
