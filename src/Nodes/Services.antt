-- ===== src/Nodes/Services.antt =====
-- nodes.go: the services and the replication jobs of a node. No entry of a list is null.
use go_proxmox.Prelude.{ℕ, true, Option, none, some, List, [], ◌++◌, if◌then◌else◌, map, ◌==◌}
use go_proxmox.Prelude.Text.{Text, codes, is_empty}
use go_proxmox.Prelude.Int.{ℤ, pos, negsuc}
use go_proxmox.Errors.{Result, ok}
use go_proxmox.Errors.Decimal.{decimal}
use go_proxmox.Json.{Json}
use go_proxmox.World.{Env}
use go_proxmox.Client.{Action, ◌>>=◌, pure, lift}
use go_proxmox.Session.Req.{get}
use go_proxmox.Tasks.{Task}
use go_proxmox.Nodes.{node_path}
use go_proxmox.Containers.Calls.{Values, read, post_task}

-- `NodeService`, with the fields that the calls leave alone in `rest`.
pub record NodeService (lib : Values) : Type 0 where
  pub node : Text
  pub service : Text
  pub name : Text
  pub rest : lib.Value

-- `NodeReplicationJob`, likewise.
pub record NodeReplicationJob (lib : Values) : Type 0 where
  pub job_node : Text
  pub id : Text
  pub job_rest : lib.Value

-- encoding/json's reading of a list, and of an answer into a struct that is there; neither sets a
-- node.
pub record ServiceLib (lib : Values) : Type 0 where
  pub services_of : Json → Result (List (NodeService lib))
  pub service_onto : NodeService lib → Json → Result (NodeService lib)
  pub jobs_of : Json → Result (List (NodeReplicationJob lib))
  pub job_onto : NodeReplicationJob lib → Json → Result (NodeReplicationJob lib)

-- An answer without data is read as what is there.
abbrev read_or : {A : Type 0} → A → (Json → Result A) → Option Json → Result A
read_or there decode none = ok there
read_or there decode (some j) = decode j

module _ (env : Env) (calls : ℕ) (lib : Values) (services : ServiceLib lib) where
  open services use {services_of, service_onto, jobs_of, job_onto}

  -- An entry of `Services` that has no name gets its service's.
  unfoldable pub with_node : Text → NodeService lib → NodeService lib
  with_node n s = record s { node = n; name = if is_empty s.name then s.service else s.name }

  unfoldable pub list_services : Text → Action (List (NodeService lib))
  unfolding with_node
  list_services n = get env calls (node_path n ++ codes "/services") true >>= λ a.
      lift (read_or [] services_of a) >>= λ ss. pure (map (with_node n) ss)

  abbrev service_path : NodeService lib → Text → Text
  service_path s verb = node_path s.node ++ (codes "/services/" ++ (s.name ++ (codes "/" ++ verb)))

  -- `State`: the node is kept, and the name where the answer empties it.
  unfoldable pub kept_name : NodeService lib → NodeService lib → NodeService lib
  kept_name before s = record s {
    node = before.node;
    name = if is_empty s.name then before.name else s.name;
  }

  unfoldable pub service_state : NodeService lib → Action (NodeService lib)
  unfolding kept_name
  service_state s = get env calls (service_path s (codes "state")) true >>= λ a.
      lift (read_or s (service_onto s) a) >>= λ t. pure (kept_name s t)

  unfoldable pub service_start : NodeService lib → Action (Option Task)
  unfolding post_task
  service_start s = post_task env calls lib (service_path s (codes "start")) none

  unfoldable pub service_stop : NodeService lib → Action (Option Task)
  unfolding post_task
  service_stop s = post_task env calls lib (service_path s (codes "stop")) none

  unfoldable pub service_restart : NodeService lib → Action (Option Task)
  unfolding post_task
  service_restart s = post_task env calls lib (service_path s (codes "restart")) none

  unfoldable pub service_reload : NodeService lib → Action (Option Task)
  unfolding post_task
  service_reload s = post_task env calls lib (service_path s (codes "reload")) none

  abbrev with_job_node : Text → NodeReplicationJob lib → NodeReplicationJob lib
  with_job_node n j = record j { job_node = n }

  -- The id of a guest is not negative.
  unfoldable pub replications : Text → ℕ → Action (List (NodeReplicationJob lib))
  replications n guest =
      get env calls
        ((node_path n ++ codes "/replication")
          ++ (if guest == 0 then [] else codes "?guest=" ++ decimal guest))
        true
      >>= λ a. lift (read_or [] jobs_of a) >>= λ js. pure (map (with_job_node n) js)

  abbrev job_path : NodeReplicationJob lib → Text → Text
  job_path j verb = node_path j.job_node ++ (codes "/replication/" ++ (j.id ++ (codes "/" ++ verb)))

  unfoldable pub job_status : NodeReplicationJob lib → Action (NodeReplicationJob lib)
  job_status j =
      get env calls (job_path j (codes "status")) true >>= λ a. lift (read_or j (job_onto j) a)

  abbrev above_zero : Text → ℤ → Text
  above_zero key (pos n) = if n == 0 then [] else key ++ decimal n
  above_zero key (negsuc _) = []

  -- The query of `Log`.
  unfoldable pub log_query : ℤ → ℤ → Text
  log_query start limit =
      let q = above_zero (codes "start=") start in
      let l = above_zero (codes "limit=") limit in
      if is_empty l then q else if is_empty q then l else q ++ (codes "&" ++ l)

  unfoldable pub job_log : NodeReplicationJob lib → ℤ → ℤ → Action lib.Value
  unfolding read log_query
  job_log j start limit =
      let q = log_query start limit in
      read env calls lib (job_path j (codes "log") ++ (if is_empty q then [] else codes "?" ++ q))
        (codes "[]*LogEntry")

  unfoldable pub schedule_now : NodeReplicationJob lib → Action (Option Task)
  unfolding post_task
  schedule_now j = post_task env calls lib (job_path j (codes "schedule_now")) none
