-- ===== src/Nodes.antt =====
-- nodes.go: the calls on a node, which is its name here. Type names are Go's.
pub mod Services
pub mod Config
mod Tests
use go_proxmox.Prelude.{
  ℕ, Bool, true, false, Option, none, some, List, [], ◌∷◌, ◌++◌, if◌then◌else◌, map, ◌==◌,
}
use go_proxmox.Prelude.Text.{Text, codes, is_empty, split}
use go_proxmox.Prelude.Int.{ℤ, pos, negsuc}
use go_proxmox.Prelude.Map.{Map, insert}
use go_proxmox.Errors.{Error, message, wrapped, Result, ok, err}
use go_proxmox.Errors.Decimal.{decimal}
use go_proxmox.Json.{Json, Members, as_text}
use go_proxmox.World.{Env}
use go_proxmox.Client.{Action, ◌>>=◌, pure, raise, lift}
use go_proxmox.Session.Req.{get, post, put, delete}
use go_proxmox.Tasks.{Task}
use go_proxmox.Vm.{task_of}
use go_proxmox.Containers.Calls.{
  Values, one, read, post_read, post_task, put_task, pointer, or_blank,
}

abbrev pub node_path : Text → Text
node_path n = codes "/nodes/" ++ n

-- `if v > 0 { q.Set(key, fmt.Sprintf("%d", v)) }`.
abbrev pub positive : Text → ℤ → Map Text
positive key (pos n) = if n == 0 then [] else (key, decimal n) ∷ []
positive key (negsuc _) = []

-- `NodeFirewallLogOptions`.
pub record NodeFirewallLogOptions : Type 0 where
  pub start : ℤ
  pub limit : ℤ
  pub since : ℤ
  pub until : ℤ

unfoldable pub log_params : NodeFirewallLogOptions → Map Text
log_params o =
    positive (codes "start") o.start
    ++ (positive (codes "limit") o.limit
        ++ (positive (codes "since") o.since ++ positive (codes "until") o.until))

-- The path with the query, where there is one.
unfoldable pub log_path : (lib : Values) → Text → Option NodeFirewallLogOptions → Text
unfolding log_params
log_path lib path none = path
log_path lib path (some o) = elim (log_params o) [
  | [] ↦ path
  | p ∷ ps ↦ path ++ (codes "?" ++ lib.query (p ∷ ps))
]

-- `strings.SplitN(field, ":", 2)`, of two parts.
unfoldable pub split_field : Text → Option (Text × Text)
split_field [] = none
split_field (c ∷ s) =
    let rest = split_field s in
    if c == 58 then some ([], s) else elim rest [ none ↦ none | some (k, v) ↦ some (c ∷ k, v) ]

-- The two ends of `strings.Trim(s, " ")`.
unfoldable pub trim_start : Text → Text
trim_start [] = []
trim_start (c ∷ s) = let rest = trim_start s in if c == 32 then rest else c ∷ s

unfoldable pub trim_end : Text → Text
trim_end [] = []
trim_end (c ∷ s) =
    let rest = trim_end s in if c == 32 then (if is_empty rest then [] else c ∷ rest) else c ∷ rest

-- The loop of `parseVzdumpConfig`.
unfoldable pub add_field : Option (Text × Text) → Map Text → Map Text
unfolding trim_start trim_end
add_field none fields = fields
add_field (some (k, v)) fields = insert k (trim_end (trim_start v)) fields

unfoldable pub config_fields : List Text → Map Text → Map Text
unfolding add_field split_field
config_fields [] fields = fields
config_fields (field ∷ rest) fields = config_fields rest (add_field (split_field field) fields)

module _ (env : Env) (calls : ℕ) (lib : Values) (n : Text) where
  abbrev pub at : Text → Text
  at suffix = node_path n ++ suffix

  -- `map[string]any{}` with `force`.
  abbrev pub forced : Bool → Option Json
  forced force =
      some (Json.object (if force then one (codes "force") (Json.number (pos 1)) else Members.end))

  unfoldable pub node_version : Action lib.Value
  unfolding read
  node_version = read env calls lib (at (codes "/version")) (codes "*Version")

  unfoldable pub node_report : Action lib.Value
  unfolding read
  node_report = read env calls lib (at (codes "/report")) (codes "string")

  unfoldable pub node_term_proxy : Action lib.Value
  unfolding post_read
  node_term_proxy = post_read env calls lib (at (codes "/termproxy")) none (codes "*Term")

  unfoldable pub node_firewall_option_get : Action lib.Value
  unfolding read
  node_firewall_option_get =
      read env calls lib (at (codes "/firewall/options")) (codes "*FirewallNodeOption")

  unfoldable pub node_firewall_option_set : Option lib.Value → Action (Option Json)
  node_firewall_option_set options =
      put env calls (at (codes "/firewall/options")) (pointer env calls lib options) false

  unfoldable pub node_firewall_log : Option NodeFirewallLogOptions → Action lib.Value
  unfolding read log_path
  node_firewall_log opts =
      read env calls lib (log_path lib (at (codes "/firewall/log")) opts) (codes "[]*LogEntry")

  unfoldable pub upload_custom_certificate : Option lib.Value → Action (Option Json)
  upload_custom_certificate cert =
      post env calls (at (codes "/certificates/custom")) (pointer env calls lib cert) false

  unfoldable pub delete_custom_certificate : Action (Option Json)
  delete_custom_certificate = delete env calls (at (codes "/certificates/custom")) false

  unfoldable pub get_custom_certificates : Action lib.Value
  unfolding read
  get_custom_certificates =
      read env calls lib (at (codes "/certificates/info")) (codes "*NodeCertificates")

  unfoldable pub list_certificate_subresources : Action (List Text)
  unfolding read
  list_certificate_subresources =
      read env calls lib (at (codes "/certificates")) (codes "[]struct{Name string}") >>= λ items.
      pure (lib.names items)

  unfoldable pub list_acme_certificate_subresources : Action (List Text)
  unfolding read
  list_acme_certificate_subresources =
      read env calls lib (at (codes "/certificates/acme")) (codes "[]struct{Name string}")
      >>= λ items. pure (lib.names items)

  abbrev acme_certificate : Text
  acme_certificate = at (codes "/certificates/acme/certificate")

  unfoldable pub order_acme_certificate : Bool → Action (Option Task)
  unfolding post_task
  order_acme_certificate force = post_task env calls lib acme_certificate (forced force)

  unfoldable pub renew_acme_certificate : Bool → Action (Option Task)
  unfolding put_task
  renew_acme_certificate force = put_task env calls lib acme_certificate (forced force)

  unfoldable pub revoke_acme_certificate : Action (Option Task)
  revoke_acme_certificate = delete env calls acme_certificate true >>= λ a. lift (task_of a)

  unfoldable pub vzdump : Option lib.Value → Action (Option Task)
  unfolding post_task
  vzdump params =
      post_task env calls lib (at (codes "/vzdump"))
        (or_blank env calls lib (codes "VirtualMachineBackupOptions") params)

  abbrev pub parsed : Result lib.Value → Result lib.Value
  parsed (err e) = err (wrapped (codes "cannot parse data for vzdump config : ") e)
  parsed (ok c) = ok c

  -- `parseVzdumpConfig`, whose fields `of_fields` writes as a JSON object of strings.
  unfoldable pub parse_vzdump_config : (Map Text → Json) → Text → Result lib.Value
  unfolding config_fields
  parse_vzdump_config of_fields text =
      parsed (lib.decode (codes "*VzdumpConfig") (of_fields (config_fields (split 10 text) [])))

  abbrev text_of : Option Json → Result Text
  text_of none = ok []
  text_of (some j) = as_text j

  unfoldable pub vzdump_extract_config : (Map Text → Json) → Text → Action lib.Value
  unfolding parse_vzdump_config
  vzdump_extract_config of_fields volume =
      get env calls (at (codes "/vzdump/extractconfig?volume=" ++ volume)) true >>= λ a.
      lift (text_of a) >>= λ text. lift (parse_vzdump_config of_fields text)

  -- `Time` and `Subscription`.
  unfoldable pub node_time : Action lib.Value
  unfolding read
  node_time = read env calls lib (at (codes "/time")) (codes "NodeTime")

  unfoldable pub set_timezone : Text → Action (Option Json)
  set_timezone timezone =
      put env calls (at (codes "/time"))
        (some (Json.object (one (codes "timezone") (Json.string timezone)))) false

  unfoldable pub subscription : Action lib.Value
  unfolding read
  subscription = read env calls lib (at (codes "/subscription")) (codes "Subscription")

  unfoldable pub set_subscription : Text → Action (Option Json)
  set_subscription key =
      put env calls (at (codes "/subscription"))
        (some (Json.object (one (codes "key") (Json.string key)))) false

  unfoldable pub refresh_subscription : Bool → Action (Option Json)
  refresh_subscription force = post env calls (at (codes "/subscription")) (forced force) false

  unfoldable pub delete_subscription : Action (Option Json)
  delete_subscription = delete env calls (at (codes "/subscription")) false

  -- A mass operation with blank options where there are none.
  unfoldable pub start_all : Option lib.Value → Action (Option Task)
  unfolding post_task
  start_all opts =
      post_task env calls lib (at (codes "/startall"))
        (or_blank env calls lib (codes "NodeStartAllOptions") opts)

  unfoldable pub stop_all : Option lib.Value → Action (Option Task)
  unfolding post_task
  stop_all opts =
      post_task env calls lib (at (codes "/stopall"))
        (or_blank env calls lib (codes "NodeStopAllOptions") opts)

  unfoldable pub suspend_all : Option lib.Value → Action (Option Task)
  unfolding post_task
  suspend_all opts =
      post_task env calls lib (at (codes "/suspendall"))
        (or_blank env calls lib (codes "NodeSuspendAllOptions") opts)

  -- `MigrateAll`, whose options hold a target.
  unfoldable pub migrate_all : (lib.Value → Text) → Option lib.Value → Action (Option Task)
  unfolding post_task
  migrate_all target none = raise (message (codes "migrateall target can not be empty"))
  migrate_all target (some opts) =
      if is_empty (target opts)
      then raise (message (codes "migrateall target can not be empty"))
      else post_task env calls lib (at (codes "/migrateall")) (some (lib.encode opts))

  unfoldable pub wake_on_lan : Action lib.Value
  unfolding post_read
  wake_on_lan = post_read env calls lib (at (codes "/wakeonlan")) none (codes "string")
