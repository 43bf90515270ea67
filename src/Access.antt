-- ===== src/Access.antt =====
-- access.go: the calls on access control, domains, groups, users, tokens and roles. A domain, a
-- group, a user or a role is its key with its other fields as JSON; that the fields are those of
-- the struct is left to `Fields`. The lists are what their elements are decoded from.
pub mod Domains
mod Tests
use go_proxmox.Prelude.{ℕ, Bool, true, false, Option, none, some, [], ◌∷◌, ◌++◌, if◌then◌else◌}
use go_proxmox.Prelude.Text.{Text, codes, is_empty}
use go_proxmox.Errors.{Error, message, Result, ok, err}
use go_proxmox.Json.{Json, Members}
use go_proxmox.World.{Env}
use go_proxmox.Client.{Action, ◌>>=◌, pure, raise}
use go_proxmox.Session.Req.{get, post, put, delete}

-- `Domain`, `Group`, `User` and `Role`.
pub record Entity : Type 0 where
  pub key : Text
  pub fields : Json

-- encoding/json on one of those structs, and url.Values.Encode.
pub record Fields : Type 0 where
  pub decode : Json → Result Json
  pub encode : Entity → Json
  pub values : Option Text → Option Text → Text

abbrev text_field : Text → Text → Members → Members
text_field k v = Members.member k (Json.string v)

abbrev two_fields : Text → Text → Text → Text → Option Json
two_fields j u k w = some (Json.object (text_field j u (text_field k w Members.end)))

module _ (env : Env) (calls : ℕ) (lib : Fields) where
  -- `ACL` and `UpdateACL`.
  unfoldable pub acl : Action (Option Json)
  acl = get env calls (codes "/access/acl") true

  unfoldable pub update_acl : Json → Action (Option Json)
  update_acl options = put env calls (codes "/access/acl") (some options) false

  abbrev unless_empty : Text → Option Text
  unless_empty t = if is_empty t then none else some t

  -- `Permissions`, with the user id and the path of its options, if there are options.
  unfoldable pub permissions : Option (Text × Text) → Action (Option Json)
  permissions none = get env calls (codes "/access/permissions") true
  permissions (some (user_id, path)) =
      let query = lib.values (unless_empty user_id) (unless_empty path) in
      get env calls
        (codes "/access/permissions" ++ (if is_empty query then [] else codes "?" ++ query)) true

  unfoldable pub password : Text → Text → Action (Option Json)
  password userid secret =
      put env calls (codes "/access/password")
        (two_fields (codes "userid") userid (codes "password") secret) false

  -- A pointer that null leaves nil is written through: Go panics.
  abbrev keyed : Text → Option Json → Action Entity
  keyed key none = raise (message (codes "panic: nil pointer dereference"))
  keyed key (some Json.null) = raise (message (codes "panic: nil pointer dereference"))
  keyed key (some v) = elim (lib.decode v) [
    | err e ↦ raise e
    | ok fields ↦ pure (record { key = key; fields = fields })
  ]

  abbrev read_entity : Text → Text → Action Entity
  read_entity section key = get env calls (section ++ key) true >>= keyed key

  abbrev pub domains_path : Text
  domains_path = codes "/access/domains/"

  -- `NewDomain`, `Domain`, `Domains`, and a domain's `Update`, `Delete` and `Sync`.
  unfoldable pub new_domain : Text → Text → Action (Option Json)
  new_domain realm domain_type =
      post env calls (codes "/access/domains")
        (two_fields (codes "realm") realm (codes "type") domain_type) false

  unfoldable pub domain : Text → Action Entity
  domain realm = read_entity domains_path realm

  unfoldable pub domains : Action (Option Json)
  domains = get env calls (codes "/access/domains") true

  abbrev pub no_realm : Error
  no_realm = message (codes "realm can not be empty")

  unfoldable pub domain_update : Entity → Action (Option Json)
  domain_update d =
      if is_empty d.key
      then raise no_realm
      else put env calls (domains_path ++ d.key) (some (lib.encode d)) false

  unfoldable pub domain_delete : Entity → Action (Option Json)
  domain_delete d =
      if is_empty d.key then raise no_realm else delete env calls (domains_path ++ d.key) false

  unfoldable pub domain_sync : Entity → Json → Action (Option Json)
  domain_sync d options =
      if is_empty d.key
      then raise no_realm
      else post env calls (domains_path ++ (d.key ++ codes "/sync")) (some options) false

  abbrev groups_path : Text
  groups_path = codes "/access/groups/"

  -- `NewGroup`, `Group`, `Groups`, and a group's `Update` and `Delete`.
  unfoldable pub new_group : Text → Text → Action (Option Json)
  new_group groupid comment =
      post env calls (codes "/access/groups")
        (two_fields (codes "groupid") groupid (codes "comment") comment) false

  unfoldable pub group : Text → Action Entity
  group groupid = read_entity groups_path groupid

  unfoldable pub groups : Action (Option Json)
  groups = get env calls (codes "/access/groups") true

  unfoldable pub group_update : Entity → Action (Option Json)
  group_update g = put env calls (groups_path ++ g.key) (some (lib.encode g)) false

  unfoldable pub group_delete : Entity → Action (Option Json)
  group_delete g = delete env calls (groups_path ++ g.key) false

  abbrev users_path : Text
  users_path = codes "/access/users/"

  -- `User`, `Users`, `NewUser`, and a user's `Update`, `Delete` and `UnlockTFA`.
  unfoldable pub user : Text → Action Entity
  user userid = read_entity users_path userid

  unfoldable pub users : Action (Option Json)
  users = get env calls (codes "/access/users") true

  unfoldable pub new_user : Json → Action (Option Json)
  new_user u = post env calls (codes "/access/users") (some u) false

  unfoldable pub user_update : Entity → Json → Action (Option Json)
  user_update u options = put env calls (users_path ++ u.key) (some options) false

  unfoldable pub user_delete : Entity → Action (Option Json)
  user_delete u = delete env calls (users_path ++ u.key) false

  unfoldable pub unlock_tfa : Entity → Action (Option Json)
  unlock_tfa u = put env calls (users_path ++ (u.key ++ codes "/unlock-tfa")) none false

  abbrev token_path : Entity → Text → Text
  token_path u tokenid = users_path ++ (u.key ++ (codes "/token/" ++ tokenid))

  -- A user's `GetAPITokens`, `APIToken`, `NewAPIToken`, `DeleteAPIToken` and `GetTFA`.
  unfoldable pub get_api_tokens : Entity → Action (Option Json)
  get_api_tokens u = get env calls (users_path ++ (u.key ++ codes "/token")) true

  unfoldable pub api_token : Entity → Text → Action (Option Json)
  api_token u tokenid = get env calls (token_path u tokenid) true

  unfoldable pub new_api_token : Entity → Text → Json → Action (Option Json)
  new_api_token u tokenid token = post env calls (token_path u tokenid) (some token) true

  unfoldable pub delete_api_token : Entity → Text → Action (Option Json)
  delete_api_token u tokenid = delete env calls (token_path u tokenid) false

  unfoldable pub get_tfa : Entity → Action (Option Json)
  get_tfa u = get env calls (users_path ++ (u.key ++ codes "/tfa")) true

  abbrev roles_path : Text
  roles_path = codes "/access/roles/"

  -- `Role`, `NewRole`, `Roles`, and a role's `Update` and `Delete`.
  unfoldable pub role : Text → Action (Option Json)
  role roleid = get env calls (roles_path ++ roleid) true

  unfoldable pub new_role : Text → Text → Action (Option Json)
  new_role role_id privs =
      post env calls (codes "/access/roles")
        (two_fields (codes "roleid") role_id (codes "privs") privs) false

  unfoldable pub roles : Action (Option Json)
  roles = get env calls (codes "/access/roles") true

  unfoldable pub role_update : Entity → Action (Option Json)
  role_update r = put env calls (roles_path ++ r.key) (some (lib.encode r)) false

  unfoldable pub role_delete : Entity → Action (Option Json)
  role_delete r = delete env calls (roles_path ++ r.key) false
