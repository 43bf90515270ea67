-- ===== src/Cluster/Status.antt =====
-- What a cluster's status says, entry by entry, as it is to be read.
pub mod Decoded
use go_proxmox.Prelude.{
  ◌≡◌, Bool, true, false, Option, none, some, List, [], ◌∷◌, ◌++◌, if◌then◌else◌,
}
use go_proxmox.Prelude.Text.{Text, codes, text_eq}
use go_proxmox.Prelude.Int.{ℤ, pos, eq_ℤ}
use go_proxmox.Prelude.Map.{Map, lookup}
use go_proxmox.Errors.{Result, ok, err}
use go_proxmox.Json.{Json}
use go_proxmox.Cluster.{Cluster, NodeStatus}

-- A field that can be read: absent, null, or of its type.
abbrev pub IsTextual : Option Json → Type 0
IsTextual none = Unit
IsTextual (some Json.null) = Unit
IsTextual (some (Json.string _)) = Unit
IsTextual (some _) = ⊥

abbrev pub IsNumeric : Option Json → Type 0
IsNumeric none = Unit
IsNumeric (some Json.null) = Unit
IsNumeric (some (Json.number _)) = Unit
IsNumeric (some _) = ⊥

-- What it reads as.
abbrev pub text_or : Text → Option Json → Text
text_or old (some (Json.string s)) = s
text_or old _ = old

abbrev pub number_or : ℤ → Option Json → ℤ
number_or old (some (Json.number n)) = n
number_or old _ = old

abbrev pub is_number : Option Json → Bool
is_number (some (Json.number _)) = true
is_number _ = false

abbrev pub number_read : ℤ → Option Json → ℤ × Bool
number_read old o = (number_or old o, is_number o)

-- The type of an entry, which must have one.
abbrev pub type_of : Option Json → Option Text
type_of (some (Json.string s)) = some s
type_of _ = none

abbrev pub kind_of : Map Json → Option Text
kind_of d = type_of (lookup (codes "type") d)

abbrev pub IsText : Map Json → Text → Type 0
IsText d key = IsTextual (lookup key d)

abbrev pub IsNumber : Map Json → Text → Type 0
IsNumber d key = IsNumeric (lookup key d)

-- The fields of an entry of a type, all of which can be read.
abbrev pub ClusterFields : Map Json → Type 0
ClusterFields d =
    IsText d (codes "id")
    × (IsText d (codes "name") × (IsNumber d (codes "version") × IsNumber d (codes "quorate")))

abbrev pub NodeFields : Map Json → Type 0
NodeFields d =
    IsText d (codes "name")
    × (IsText d (codes "level")
        × (IsText d (codes "id")
            × (IsText d (codes "ip") × (IsNumber d (codes "online") × IsNumber d (codes "local")))))

abbrev pub HasFields : Map Json → Text → Type 0
HasFields d t =
    if text_eq t (codes "cluster")
    then ClusterFields d
    else (if text_eq t (codes "node") then NodeFields d else Unit)

abbrev pub IsReadable : Map Json → Type 0
IsReadable d = elim (kind_of d) [ none ↦ ⊥ | some t ↦ HasFields d t ]

abbrev pub node_of : Map Json → NodeStatus
node_of d = record {
  status =
      if eq_ℤ (number_or (pos 0) (lookup (codes "online") d)) (pos 1)
      then codes "online"
      else codes "offline";
  level = text_or [] (lookup (codes "level") d);
  id = text_or [] (lookup (codes "id") d);
  kind = codes "node";
  name = text_or [] (lookup (codes "name") d);
  ip = text_or [] (lookup (codes "ip") d);
  online = number_or (pos 0) (lookup (codes "online") d);
  local = number_or (pos 0) (lookup (codes "local") d);
}

abbrev pub is_kind : Text → Option Text → Bool
is_kind t none = false
is_kind t (some u) = text_eq u t

abbrev pub has_kind : Text → Map Json → Bool
has_kind t d = is_kind t (kind_of d)

-- The nodes, in the order of their entries.
abbrev pub nodes_of : List (Map Json) → List NodeStatus
nodes_of [] = []
nodes_of (d ∷ ds) = if has_kind (codes "node") d then node_of d ∷ nodes_of ds else nodes_of ds

-- A field of the cluster: that of the last entry of the cluster which has it.
abbrev pub last_text : Text → Text → List (Map Json) → Text
last_text key old [] = old
last_text key old (d ∷ ds) =
    last_text key (if has_kind (codes "cluster") d then text_or old (lookup key d) else old) ds

abbrev pub last_number : Text → ℤ → List (Map Json) → ℤ
last_number key old [] = old
last_number key old (d ∷ ds) =
    last_number key (if has_kind (codes "cluster") d then number_or old (lookup key d) else old) ds

abbrev pub status_of : List (Map Json) → Cluster → Cluster
status_of ds cl = record {
  version = last_number (codes "version") cl.version ds;
  quorate = last_number (codes "quorate") cl.quorate ds;
  nodes = cl.nodes ++ nodes_of ds;
  name = last_text (codes "name") cl.name ds;
  id = last_text (codes "id") cl.id ds;
}

-- A reading gives a value if a condition holds, and else an error.
abbrev pub Reads : {A : Type 0} → Type 0 → A → Result A → Type 0
Reads P a (ok x) = P × (x ≡ a)
Reads P a (err e) = ¬ P
