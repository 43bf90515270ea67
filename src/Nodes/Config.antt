-- ===== src/Nodes/Config.antt =====
-- The configuration of a backup, as it is printed and as `parseVzdumpConfig` reads it.
use go_proxmox.Prelude.{
  ℕ, ◌≡◌, refl, none, some, [], ◌∷◌, ◌++◌, All, ap, ◌∙◌, arith, Option-cases, inl, inr,
}
use go_proxmox.Prelude.Text.{Text, codes, split}
use go_proxmox.Prelude.Text.Laws.{Lacks, split-append}
use go_proxmox.Prelude.Map.{
  Map, lookup, insert, insert_all, IsFunctional, insert-IsFunctional, lookup-insert_all,
}
use go_proxmox.Json.{Json}
use go_proxmox.World.{Env}
use go_proxmox.Containers.Calls.{Values}
use go_proxmox.Nodes.{
  split_field, trim_start, trim_end, add_field, config_fields, parsed, parse_vzdump_config,
}

-- A line, and the text of an object's lines, each with its end.
abbrev pub line : Text → Text → Text
line k v = k ++ (58 ∷ (32 ∷ v))

abbrev pub printed : Map Text → Text
printed [] = []
printed ((k, v) ∷ m) = line k v ++ (10 ∷ printed m)

-- A key without colons and line ends, and a value without line ends or spaces around it.
abbrev pub IsEntry : Text × Text → Type 0
IsEntry e = Lacks 58 e.0 × Lacks 10 e.0 × Lacks 10 e.1 × (trim_end (trim_start e.1) ≡ e.1)

line-Lacks : (k v : Text) → Lacks 10 k → Lacks 10 v → Lacks 10 (line k v)
line-Lacks [] v h g = ground (arith, g)
line-Lacks (c ∷ k) v h g = (h.0, line-Lacks k v h.1 g)

split_field-line : (k v : Text) → Lacks 58 k → split_field (line k v) ≡ some (k, 32 ∷ v)
unfolding split_field
split_field-line [] v h = refl
split_field-line (c ∷ k) v h = ground (arith, split_field-line k v h.1)

add_field-line :
    (k v : Text) (fields : Map Text)
    → trim_end (trim_start v) ≡ v
    → add_field (some (k, 32 ∷ v)) fields ≡ insert k v fields
unfolding add_field trim_start
add_field-line k v fields h = ap (λ x. insert k x fields) h

fields-printed :
    (m fields : Map Text)
    → All IsEntry m
    → config_fields (split 10 (printed m)) fields ≡ insert_all m fields
unfolding config_fields insert_all
fields-printed [] fields h = unfold split split_field add_field in refl
fields-printed ((k, v) ∷ m) fields ((a, b, c, d), h) =
    ap (λ ls. config_fields ls fields) (split-append 10 (line k v) (printed m) (line-Lacks k v b c))
    ∙ ap (λ p. config_fields (split 10 (printed m)) (add_field p fields)) (split_field-line k v a)
    ∙ ap (config_fields (split 10 (printed m))) (add_field-line k v fields d)
    ∙ fields-printed m (insert k v fields) h

insert_all-IsFunctional : (n m : Map Text) → IsFunctional m → IsFunctional (insert_all n m)
unfolding insert_all
insert_all-IsFunctional [] m h = h
insert_all-IsFunctional ((k, v) ∷ n) m h =
    insert_all-IsFunctional n (insert k v m) (insert-IsFunctional k v m h)

-- The configuration of a backup that is printed as one line for each of its keys is decoded by
-- parseVzdumpConfig from an object that has exactly these keys, each with its value and none twice;
-- where no key stands twice, a key holds no colon and no line end, and a value holds no line end
-- and has no spaces around it, while it may hold colons.
pub parse_vzdump_config-printed :
    (env : Env) (calls : ℕ) (lib : Values) (node : Text) (of_fields : Map Text → Json)
    → (m : Map Text) → IsFunctional m
    → All IsEntry m
    → (fields : Map Text) × (parse_vzdump_config env calls lib node of_fields (printed m)
        ≡ parsed env calls lib node (lib.decode (codes "*VzdumpConfig") (of_fields fields)))
      × IsFunctional fields
      × ((k : Text) → lookup k fields ≡ lookup k m)
unfolding parse_vzdump_config lookup
parse_vzdump_config-printed env calls lib node of_fields m h entries = (
  insert_all m [],
  ap (λ x. parsed env calls lib node (lib.decode (codes "*VzdumpConfig") (of_fields x)))
      (fields-printed m [] entries),
  insert_all-IsFunctional m [] tt,
  λ k. lookup-insert_all k m [] h ∙ same k,
)
  where
    same : (k : Text) → (elim (lookup k m) [ none ↦ lookup k [] | some v ↦ some v ]) ≡ lookup k m
    same k = elim (Option-cases (lookup k m)) [ inl e ↦ rw e refl | inr (v, e) ↦ rw e refl ]
