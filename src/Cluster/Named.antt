-- ===== src/Cluster/Named.antt =====
-- What the calls of cluster_mapping.go, cluster_notifications.go and cluster_metrics.go on an entry
-- with a name have in common. The source writes each of them out.
pub mod Mapping
pub mod Notifications
pub mod Metrics
pub mod Families
use go_proxmox.Prelude.{
  ℕ, Bool, true, false, Option, none, some, List, [], ◌∷◌, ◌++◌, if◌then◌else◌,
}
use go_proxmox.Prelude.Text.{Text, codes, is_empty}
use go_proxmox.Errors.{Error, message}
use go_proxmox.Json.{Json}
use go_proxmox.World.{Env}
use go_proxmox.Client.{Action, ◌>>=◌, pure, raise}
use go_proxmox.Session.Req.{post, put, delete}
use go_proxmox.Containers.Calls.{Values, read, or_blank}

-- The text fields of Go's structs, by their names, and a struct with another text in such a field.
pub record TextFields (lib : Values) : Type 0 where
  pub text_field : Text → lib.Value → Text
  pub set_text : Text → Text → lib.Value → lib.Value

module _ (env : Env) (calls : ℕ) (lib : Values) (fields : TextFields lib) where
  open fields use {text_field, set_text}

  -- An answer that leaves the name out gets the one that was asked for.
  abbrev pub or_named : Text → Text → lib.Value → lib.Value
  or_named key name m = if is_empty (text_field key m) then set_text key name m else m

  unfoldable pub read_named : Text → Text → Text → Text → Text → Action lib.Value
  unfolding read
  read_named unnamed type key root name =
      if is_empty name
      then raise (message unnamed)
      else (read env calls lib (root ++ name) type >>= λ m. pure (or_named key name m))

  -- `opts == nil || opts.ID == ""`.
  unfoldable pub lacks_name : Text → Option lib.Value → Bool
  lacks_name key none = true
  lacks_name key (some o) = is_empty (text_field key o)

  abbrev pub body_of : Option lib.Value → Option Json
  body_of none = some Json.null
  body_of (some o) = some (lib.encode o)

  unfoldable pub create_named : Text → Text → Text → Option lib.Value → Action (Option Json)
  unfolding lacks_name
  create_named unnamed key path opts =
      if lacks_name key opts
      then raise (message unnamed)
      else post env calls path (body_of opts) false

  unfoldable pub update_named : Text → Text → Text → Text → Option lib.Value → Action (Option Json)
  update_named unnamed type root name opts =
      if is_empty name
      then raise (message unnamed)
      else put env calls (root ++ name) (or_blank env calls lib type opts) false

  unfoldable pub delete_named : Text → Text → Text → Action (Option Json)
  delete_named unnamed root name =
      if is_empty name then raise (message unnamed) else delete env calls (root ++ name) false

  -- `path + "?" + q.Encode()`, for a parameter that is not empty.
  abbrev pub with_query : Text → Text → Text → Text
  with_query path key value =
      if is_empty value then path else path ++ (codes "?" ++ lib.query ((key, value) ∷ []))
