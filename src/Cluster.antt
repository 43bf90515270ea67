-- ===== src/Cluster.antt =====
-- types.go: `Cluster` as a /cluster/status list is decoded.
-- What an error leaves in the receiver is left out: its comment forbids the use of it.
pub mod Firewall
pub mod Status
pub mod Options
pub mod Named
pub mod Calls
use go_proxmox.Prelude.{
  ℕ, ◌+◌, Bool, true, false, ◌&&◌, Option, none, some, List, [], ◌∷◌, ◌++◌, if◌then◌else◌, is_some,
}
use go_proxmox.Prelude.Text.{Text, codes, text_eq}
use go_proxmox.Prelude.Int.{ℤ, pos, eq_ℤ}
use go_proxmox.Prelude.Map.{Map, lookup}
use go_proxmox.Errors.{Error, shape_error, Result, ok, err}
use go_proxmox.Errors.Decimal.{decimal}
use go_proxmox.Json.{Json, as_list, number_field, string_field}
use go_proxmox.Tasks.{◌>=>◌}
use go_proxmox.Tasks.Log.{maps_of}

-- `NodeStatus`: its fields that a /cluster/status entry sets.
pub record NodeStatus : Type 0 where
  pub status : Text
  pub level : Text
  pub id : Text
  pub kind : Text
  pub name : Text
  pub ip : Text
  pub online : ℤ
  pub local : ℤ

-- `Cluster`, without its client.
pub record Cluster : Type 0 where
  pub version : ℤ
  pub quorate : ℤ
  pub nodes : List NodeStatus
  pub name : Text
  pub id : Text

abbrev pub type_name : Text
type_name = codes "Cluster"

-- `at`: the error of a field, with the entry that it is in.
unfoldable pub located : ℕ → Error → Error
located i (shape_error t f w g) = shape_error t (codes "[" ++ (decimal i ++ (codes "]." ++ f))) w g
located i e = e

abbrev pub at_entry : {A : Type 0} → ℕ → Result A → Result A
at_entry i (ok a) = ok a
at_entry i (err e) = err (located i e)

-- What a field has after it was read: null or absent leaves it.
abbrev pub or_old : {A : Type 0} → A → Option A → A
or_old old none = old
or_old old (some v) = v

-- `str`.
unfoldable pub str : ℕ → Map Json → Text → Text → Result Text
str i d key old = at_entry i (string_field type_name d key) >=> λ o. ok (or_old old o)

-- `num`, with the first of its results.
unfoldable pub num : ℕ → Map Json → Text → ℤ → Result (ℤ × Bool)
num i d key old = at_entry i (number_field type_name d key) >=> λ o. ok (or_old old o, is_some o)

-- The error for an entry without a type.
abbrev pub got_of : Option Json → Text
got_of none = codes "absent"
got_of (some _) = codes "null"

abbrev pub no_type : ℕ → Map Json → Error
no_type i d =
    shape_error type_name (codes "[" ++ (decimal i ++ codes "].type")) (codes "string")
      (got_of (lookup (codes "type") d))

-- The cases of the switch.
unfoldable pub cluster_entry : ℕ → Map Json → Cluster → Result Cluster
unfolding str num
cluster_entry i d cl = str i d (codes "id") cl.id >=> λ id.
    str i d (codes "name") cl.name >=> λ name. num i d (codes "version") cl.version >=> λ version.
    num i d (codes "quorate") cl.quorate >=> λ quorate.
    ok (record cl { id = id; name = name; version = version.0; quorate = quorate.0 })

unfoldable pub node_entry : ℕ → Map Json → Cluster → Result Cluster
unfolding str num
node_entry i d cl = str i d (codes "name") [] >=> λ name. str i d (codes "level") [] >=> λ level.
    str i d (codes "id") [] >=> λ id. str i d (codes "ip") [] >=> λ ip.
    num i d (codes "online") (pos 0) >=> λ online. num i d (codes "local") (pos 0) >=> λ local.
    ok (record cl {
      nodes =
          cl.nodes
          ++ record {
            status = if online.1 && eq_ℤ online.0 (pos 1) then codes "online" else codes "offline";
            level = level;
            id = id;
            kind = codes "node";
            name = name;
            ip = ip;
            online = online.0;
            local = local.0;
          }
            ∷ [];
    })

-- The body of the loop, with the entry's type.
unfoldable pub typed_entry : ℕ → Map Json → Cluster → Option Text → Result Cluster
unfolding cluster_entry node_entry
typed_entry i d cl none = err (no_type i d)
typed_entry i d cl (some t) =
    if text_eq t (codes "cluster")
    then cluster_entry i d cl
    else (if text_eq t (codes "node") then node_entry i d cl else ok cl)

unfoldable pub read_entries : ℕ → List (Map Json) → Cluster → Result Cluster
unfolding typed_entry
read_entries i [] cl = ok cl
read_entries i (d ∷ ds) cl =
    at_entry i (string_field type_name d (codes "type"))
    >=> typed_entry i d cl
    >=> read_entries (i + 1) ds

-- `(cl *Cluster) UnmarshalJSON`.
unfoldable pub unmarshal_cluster : Cluster → Json → Result Cluster
unfolding read_entries
unmarshal_cluster cl v = as_list v >=> maps_of >=> λ tmp. read_entries 0 tmp cl
