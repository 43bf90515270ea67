-- ===== src/Cluster/Status/Decoded.antt =====
-- What a cluster has after its status was decoded.
mod Tests
use go_proxmox.Prelude.{
  ℕ, ◌+◌, ◌≡◌, refl, ap, ◌∙◌, subst, sym, ◌⊎◌, inl, inr, Bool, true, false, ◌&&◌, Option, none,
  some, List, [], ◌∷◌, ◌++◌, if◌then◌else◌, is_some, All, append_assoc, append-nil, Bool-cases,
}
use go_proxmox.Prelude.Text.{Text, codes, text_eq}
use go_proxmox.Prelude.Text.Laws.{text-cases}
use go_proxmox.Prelude.Int.{ℤ, pos, eq_ℤ}
use go_proxmox.Prelude.Map.{Map, lookup}
use go_proxmox.Errors.{Error, Result, ok, err}
use go_proxmox.Json.{Json, as_list, number_field, string_field, number_value, string_value}
use go_proxmox.Tasks.{◌>=>◌}
use go_proxmox.Tasks.Log.{maps_of}
use go_proxmox.Cluster.{
  Cluster, NodeStatus, type_name, located, at_entry, or_old, str, num, no_type, cluster_entry,
  node_entry, typed_entry, read_entries, unmarshal_cluster,
}
use go_proxmox.Cluster.Status.{
  IsTextual, IsNumeric, text_or, number_or, is_number, number_read, type_of, kind_of, IsText,
  IsNumber, ClusterFields, NodeFields, HasFields, IsReadable, node_of, is_kind, has_kind, nodes_of,
  status_of, Reads,
}

second : {B : Type 0} (P Q : Type 0) (b : B) (r : Result B) → P → Reads Q b r → Reads (P × Q) b r
second P Q b (ok y) p (q, e) = ((p, q), e)
second P Q b (err e) p nq = λ h. nq h.1

Reads-bind :
    {A B : Type 0} (P Q : Type 0) (a : A) (b : B) (m : Result A) (f : A → Result B)
    → Reads P a m
    → Reads Q b (f a)
    → Reads (P × Q) b (m >=> f)
Reads-bind P Q a b (ok x) f (p, e) h = second P Q b (f x) p (subst (λ y. Reads Q b (f y)) (sym e) h)
Reads-bind P Q a b (err e) f np h = λ pq. np pq.0

module _ (i : ℕ) (d : Map Json) (key : Text) where
  str-Reads : (old : Text) → Reads (IsText d key) (text_or old (lookup key d)) (str i d key old)
  unfolding str string_field string_value
  str-Reads old = go (lookup key d)
    where
      go :
          (o : Option Json)
          → Reads (IsTextual o) (text_or old o) (
              at_entry i (elim o [ none ↦ ok none | some v ↦ string_value type_name key v ])
              >=> λ x. ok (or_old old x))
      go none = (tt, refl)
      go (some Json.null) = (tt, refl)
      go (some (Json.string s)) = (tt, refl)
      go (some (Json.boolean _)) = λ h. h
      go (some (Json.number _)) = λ h. h
      go (some (Json.array _)) = λ h. h
      go (some (Json.object _)) = λ h. h

  num-Reads : (old : ℤ) → Reads (IsNumber d key) (number_read old (lookup key d)) (num i d key old)
  unfolding num number_field number_value
  num-Reads old = go (lookup key d)
    where
      go :
          (o : Option Json)
          → Reads (IsNumeric o) (number_read old o) (
              at_entry i (elim o [ none ↦ ok none | some v ↦ number_value type_name key v ])
              >=> λ x. ok (or_old old x, is_some x))
      go none = (tt, refl)
      go (some Json.null) = (tt, refl)
      go (some (Json.number n)) = (tt, refl)
      go (some (Json.boolean _)) = λ h. h
      go (some (Json.string _)) = λ h. h
      go (some (Json.array _)) = λ h. h
      go (some (Json.object _)) = λ h. h

-- A number that is not given is 0, and not 1.
online_eq :
    (o : Option Json)
    → (is_number o && eq_ℤ (number_or (pos 0) o) (pos 1)) ≡ eq_ℤ (number_or (pos 0) o) (pos 1)
online_eq none = refl
online_eq (some Json.null) = refl
online_eq (some (Json.number n)) = refl
online_eq (some (Json.boolean _)) = refl
online_eq (some (Json.string _)) = refl
online_eq (some (Json.array _)) = refl
online_eq (some (Json.object _)) = refl

Reads-last :
    {A B : Type 0} (P : Type 0) (a : A) (b : B) (m : Result A) (f : A → Result B)
    → Reads P a m
    → f a ≡ ok b
    → Reads P b (m >=> f)
Reads-last P a b (ok x) f (p, e) h = subst (Reads P b) (sym (ap f e ∙ h)) (p, refl)
Reads-last P a b (err e) f np h = np

-- What an entry of a type makes of the cluster.
abbrev step_of : Map Json → Cluster → Option Text → Cluster
step_of d cl o =
    let old : Bool = is_kind (codes "cluster") o in
    record {
      version = if old then number_or cl.version (lookup (codes "version") d) else cl.version;
      quorate = if old then number_or cl.quorate (lookup (codes "quorate") d) else cl.quorate;
      nodes = cl.nodes ++ (if is_kind (codes "node") o then node_of d ∷ [] else []);
      name = if old then text_or cl.name (lookup (codes "name") d) else cl.name;
      id = if old then text_or cl.id (lookup (codes "id") d) else cl.id;
    }

module _ (i : ℕ) (d : Map Json) (cl : Cluster) where
  cluster_entry-Reads :
      Reads
        (ClusterFields d)
        (record cl {
          id = text_or cl.id (lookup (codes "id") d);
          name = text_or cl.name (lookup (codes "name") d);
          version = number_or cl.version (lookup (codes "version") d);
          quorate = number_or cl.quorate (lookup (codes "quorate") d);
        })
        (cluster_entry i d cl)
  unfolding cluster_entry
  cluster_entry-Reads = Reads-bind _ _ _ _ _ _ (str-Reads i d (codes "id") cl.id) (
      Reads-bind _ _ _ _ _ _ (str-Reads i d (codes "name") cl.name) (
        Reads-bind _ _ _ _ _ _ (num-Reads i d (codes "version") cl.version)
          (Reads-last _ _ _ _ _ (num-Reads i d (codes "quorate") cl.quorate) refl)))

  node_entry-Reads :
      Reads (NodeFields d) (record cl { nodes = cl.nodes ++ node_of d ∷ [] }) (node_entry i d cl)
  unfolding node_entry
  node_entry-Reads = Reads-bind _ _ _ _ _ _ (str-Reads i d (codes "name") []) (
      Reads-bind _ _ _ _ _ _ (str-Reads i d (codes "level") []) (
        Reads-bind _ _ _ _ _ _ (str-Reads i d (codes "id") []) (
          Reads-bind _ _ _ _ _ _ (str-Reads i d (codes "ip") []) (
            Reads-bind _ _ _ _ _ _ (num-Reads i d (codes "online") (pos 0)) (
              Reads-last _ _ _ _ _ (num-Reads i d (codes "local") (pos 0))
                (rw (online_eq (lookup (codes "online") d)) refl))))))

  cluster_typed :
      Reads
        (HasFields d (codes "cluster"))
        (step_of d cl (some (codes "cluster")))
        (typed_entry i d cl (some (codes "cluster")))
  unfolding typed_entry text_eq
  cluster_typed = rw append-nil cluster_entry-Reads

  typed_entry-Reads :
      (o : Option Text)
      → Reads (elim o [ none ↦ ⊥ | some t ↦ HasFields d t ]) (step_of d cl o) (typed_entry i d cl o)
  unfolding typed_entry
  typed_entry-Reads none = λ x. x
  typed_entry-Reads (some t) = elim (text-cases t (codes "cluster")) [
    | inl (e, c) ↦ rw c cluster_typed
    | inr (e, _) ↦ rw e (elim (text-cases t (codes "node")) [
      | inl (n, _) ↦ rw n node_entry-Reads
      | inr (n, _) ↦ rw n (tt, rw append-nil)
    ])
  ]

-- An entry with its type read first.
entry-Reads :
    (i : ℕ) (d : Map Json) (cl : Cluster)
    → Reads
        (IsReadable d)
        (step_of d cl (kind_of d))
        (at_entry i (string_field type_name d (codes "type")) >=> typed_entry i d cl)
unfolding string_field string_value
entry-Reads i d cl = go (lookup (codes "type") d)
  where
    go :
        (o : Option Json)
        → Reads
            (elim (type_of o) [ none ↦ ⊥ | some t ↦ HasFields d t ])
            (step_of d cl (type_of o))
            (at_entry i
                (elim o [ none ↦ ok none | some v ↦ string_value type_name (codes "type") v ])
              >=> typed_entry i d cl)
    go none = unfold typed_entry in λ x. x
    go (some Json.null) = unfold typed_entry in λ x. x
    go (some (Json.string s)) = typed_entry-Reads i d cl (some s)
    go (some (Json.boolean _)) = λ h. h
    go (some (Json.number _)) = λ h. h
    go (some (Json.array _)) = λ h. h
    go (some (Json.object _)) = λ h. h

module _ (P : Type 0) where
  Reads-eq : {A : Type 0} (a b : A) (r : Result A) → a ≡ b → Reads P a r → Reads P b r
  Reads-eq a b (ok x) e (p, q) = (p, q ∙ e)
  Reads-eq a b (err x) e np = np

-- The entries one after the other.
nodes_after :
    (b : Bool) (before : List NodeStatus) (n : NodeStatus) (rest : List NodeStatus)
    → (before ++ (if b then n ∷ [] else [])) ++ rest ≡ before ++ (if b then n ∷ rest else rest)
nodes_after true before n rest = append_assoc before (n ∷ []) rest
nodes_after false before n rest = append_assoc before [] rest

then_rest :
    (d : Map Json) (ds : List (Map Json)) (cl : Cluster)
    → status_of ds (step_of d cl (kind_of d)) ≡ status_of (d ∷ ds) cl
then_rest d ds cl =
    ap (λ ns. record (status_of ds (step_of d cl (kind_of d))) { nodes = ns })
      (nodes_after (has_kind (codes "node") d) cl.nodes (node_of d) (nodes_of ds))

read_entries-Reads :
    (ds : List (Map Json)) (i : ℕ) (cl : Cluster)
    → Reads (All IsReadable ds) (status_of ds cl) (read_entries i ds cl)
unfolding read_entries
read_entries-Reads [] i cl = (tt, rw append-nil)
read_entries-Reads (d ∷ ds) i cl =
    Reads-bind (IsReadable d) (All IsReadable ds) (step_of d cl (kind_of d)) _ _
      (read_entries (i + 1) ds) (entry-Reads i d cl)
      (Reads-eq _ _ _ _ (then_rest d ds cl)
        (read_entries-Reads ds (i + 1) (step_of d cl (kind_of d))))

-- A cluster decoded from a list of status entries has every entry of a node, in their order, with
-- its fields, and online exactly if the entry says 1; and its own fields from the last entry of a
-- cluster that has them; and it is decoded without an error exactly if every entry has its type,
-- and each field that is read of an entry is absent, null or of its type.
pub unmarshal_cluster_lem :
    (cl : Cluster) (v : Json) (ds : List (Map Json))
    → (as_list v >=> maps_of) ≡ ok ds
    → Reads (All IsReadable ds) (status_of ds cl) (unmarshal_cluster cl v)
unfolding unmarshal_cluster
unmarshal_cluster_lem cl v ds h = rw h (read_entries-Reads ds 0 cl)
