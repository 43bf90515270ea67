-- ===== src/Cluster/Named/Metrics.antt =====
-- cluster_metrics.go: the metric servers.
use go_proxmox.Prelude.{ℕ, Option, none, some, ◌++◌}
use go_proxmox.Prelude.Text.{Text, codes}
use go_proxmox.Json.{Json}
use go_proxmox.World.{Env}
use go_proxmox.Client.{Action}
use go_proxmox.Containers.Calls.{Values, read}
use go_proxmox.Cluster.Named.{TextFields, read_named, create_named, update_named, delete_named}

module _ (env : Env) (calls : ℕ) (lib : Values) (fields : TextFields lib) where
  unfoldable pub metric_servers : Action lib.Value
  unfolding read
  metric_servers =
      read env calls lib (codes "/cluster/metrics/server") (codes "ClusterMetricServers")

  unfoldable pub metric_server : Text → Action lib.Value
  unfolding read_named
  metric_server =
      read_named env calls lib fields (codes "metric server id can not be empty")
        (codes "ClusterMetricServer") (codes "ID") (codes "/cluster/metrics/server/")

  -- The id stands in the path.
  abbrev pub own_path : Option lib.Value → Text
  own_path none = codes "/cluster/metrics/server/"
  own_path (some o) = codes "/cluster/metrics/server/" ++ fields.text_field (codes "ID") o

  unfoldable pub new_metric_server : Option lib.Value → Action (Option Json)
  unfolding create_named
  new_metric_server opts =
      create_named env calls lib fields (codes "metric server id can not be empty") (codes "ID")
        (own_path opts) opts

  unfoldable pub update_metric_server : Text → Option lib.Value → Action (Option Json)
  unfolding update_named
  update_metric_server =
      update_named env calls lib fields (codes "metric server id can not be empty")
        (codes "ClusterMetricServerOptions") (codes "/cluster/metrics/server/")

  unfoldable pub delete_metric_server : Text → Action (Option Json)
  unfolding delete_named
  delete_metric_server =
      delete_named env calls lib fields (codes "metric server id can not be empty")
        (codes "/cluster/metrics/server/")
