-- ===== src/Cluster/Options.antt =====
-- cluster_options.go: how the options of a cluster are decoded and encoded, those that have no
-- field of their own included. encoding/json's reading and writing of the fields is a parameter.
mod Tests
use go_proxmox.Prelude.{
  ℕ, zero, suc, Bool, true, false, Option, none, some, List, [], ◌∷◌, if◌then◌else◌, any, is_some,
  take, ◌==◌, ◌||◌,
}
use go_proxmox.Prelude.Text.{Text, codes, is_empty, text_eq}
use go_proxmox.Prelude.Text.Laws.{text-cases}
use go_proxmox.Prelude.Map.{Map, lookup, insert}
use go_proxmox.Errors.{Error, Result, ok}
use go_proxmox.Json.{Json, as_map}
use go_proxmox.Tasks.{◌>=>◌}

-- The fields of ClusterOptionsResponse and ClusterOptionsUpdate but `Extra`; `decode` reads the
-- former from an object, and `encode` gives the latter's members, without the empty ones.
pub record OptionFields : Type 1 where
  pub Response : Type 0
  pub Update : Type 0
  pub decode : Map Json → Result Response
  pub encode : Update → Map Json

-- The tags of ClusterOptionsResponse's fields.
abbrev response_tags : List Text
response_tags =
    codes "bwlimit,omitempty"
    ∷ codes "consent-text,omitempty"
    ∷ codes "console,omitempty"
    ∷ codes "description,omitempty"
    ∷ codes "email_from,omitempty"
    ∷ codes "fencing,omitempty"
    ∷ codes "http_proxy,omitempty"
    ∷ codes "keyboard,omitempty"
    ∷ codes "language,omitempty"
    ∷ codes "mac_prefix,omitempty"
    ∷ codes "max_workers,omitempty"
    ∷ codes "migration,omitempty"
    ∷ codes "migration_unsecure,omitempty"
    ∷ codes "registered-tags,omitempty"
    ∷ codes "-"
    ∷ []

-- `indexComma`; none is -1.
unfoldable pub index_comma : Text → Option ℕ
index_comma [] = none
index_comma (c ∷ s) =
    if c == b',' then some 0 else elim (index_comma s) [ none ↦ none | some i ↦ some (suc i) ]

abbrev name_of : Text → Text
name_of tag = elim (index_comma tag) [ none ↦ tag | some c ↦ take c tag ]

-- The names of the fields, by their tags.
unfoldable pub typed_names : List Text → List Text
unfolding index_comma text_eq
typed_names [] = []
typed_names (tag ∷ tags) =
    let rest = typed_names tags in
    if is_empty tag || text_eq tag (codes "-") then rest else name_of tag ∷ rest

unfoldable pub is_typed : Text → Bool
unfolding typed_names
is_typed k = any (λ n. text_eq n k) (typed_names response_tags)

-- The loop over the raw members: a key that is taken is left out.
unfoldable pub without : (Text → Bool) → Map Json → Map Json
without taken [] = []
without taken ((k, v) ∷ raw) = if taken k then without taken raw else (k, v) ∷ without taken raw

-- Every key that no field takes.
unfoldable pub extra_of : Map Json → Map Json
extra_of raw = without is_typed raw

-- The loop over `Extra`: a key that is there already is kept.
unfoldable pub merge_extra : Map Json → Map Json → Map Json
merge_extra [] m = m
merge_extra ((k, v) ∷ extra) m =
    merge_extra extra (if is_some (lookup k m) then m else insert k v m)

module _ (fields : OptionFields) where
  -- `ClusterOptionsResponse`: its fields, and `Extra`.
  pub record ClusterOptionsResponse : Type 0 where
    pub typed : fields.Response
    pub extra : Map Json

  pub record ClusterOptionsUpdate : Type 0 where
    pub typed_update : fields.Update
    pub extra_update : Map Json

  -- `(r *ClusterOptionsResponse) UnmarshalJSON`.
  unfoldable pub unmarshal_cluster_options : Json → Result ClusterOptionsResponse
  unfolding extra_of
  unmarshal_cluster_options v = as_map v >=> λ raw.
      fields.decode raw >=> λ tmp. ok (record { typed = tmp; extra = extra_of raw })

  -- `(u ClusterOptionsUpdate) MarshalJSON`, as the members of the object.
  unfoldable pub marshal_cluster_options : ClusterOptionsUpdate → Map Json
  unfolding merge_extra
  marshal_cluster_options u = merge_extra u.extra_update (fields.encode u.typed_update)

-- The first of two.
abbrev pub or_else : Option Json → Option Json → Option Json
or_else none b = b
or_else (some a) b = some a
