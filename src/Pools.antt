-- ===== src/Pools.antt =====
-- pools.go: the pools and the calls on them. No entry of a list of pools is null.
use go_proxmox.Prelude.{
  ℕ, true, false, Option, none, some, List, [], ◌∷◌, ◌++◌, if◌then◌else◌, ◌==◌,
}
use go_proxmox.Prelude.Text.{Text, codes, is_empty, join}
use go_proxmox.Prelude.Map.{Map, insert_all}
use go_proxmox.Errors.{message, Result, ok, err}
use go_proxmox.Json.{Json, as_map}
use go_proxmox.World.{Env}
use go_proxmox.Client.{Action, ◌>>=◌, lift, pure}
use go_proxmox.Session.Req.{get, post, put, delete}
use go_proxmox.Containers.Calls.{Values, two, read, pointer}

-- The pools of a list, the id of a pool, encoding/json's reading of an answer into a pool that has
-- an id, such a pool, and its object of a map.
pub record PoolFields (lib : Values) : Type 0 where
  pub pools_of : lib.Value → List lib.Value
  pub pool_id : lib.Value → Text
  pub decode_onto : Text → Json → Result lib.Value
  pub blank_pool : Text → lib.Value
  pub of_map : Map Json → Json

-- `strings.ReplaceAll(strings.Join(filters, ""), " ", "")`.
unfoldable pub without_spaces : Text → Text
without_spaces [] = []
without_spaces (c ∷ s) = let rest = without_spaces s in if c == 32 then rest else c ∷ rest

unfoldable pub filter_text : List Text → Text
unfolding without_spaces
filter_text filters = without_spaces (join [] filters)

module _ (env : Env) (calls : ℕ) (lib : Values) (fields : PoolFields lib) where
  open fields use {pools_of, pool_id, decode_onto, blank_pool, of_map}

  unfoldable pub new_pool : Text → Text → Action (Option Json)
  new_pool poolid comment =
      post env calls (codes "/pools")
        (some (
          Json.object
            (two (codes "comment") (Json.string comment) (codes "poolid") (Json.string poolid))))
        false

  unfoldable pub pools : Action (List lib.Value)
  unfolding read
  pools = read env calls lib (codes "/pools") (codes "Pools") >>= λ ps. pure (pools_of ps)

  -- The switch of `Pool` on the number of pools.
  unfoldable pub only_pool : Text → List lib.Value → Result lib.Value
  only_pool poolid [] = err (message (codes "pool not found"))
  only_pool poolid (pool ∷ []) = ok pool
  only_pool poolid (_ ∷ (_ ∷ _)) =
      err (message (codes "multiple pools found for poolid: " ++ poolid))

  unfoldable pub pool_params : Text → Text → Map Text
  pool_params poolid f =
      (codes "poolid", poolid) ∷ (if is_empty f then [] else (codes "type", f) ∷ [])

  unfoldable pub pool : Text → List Text → Action lib.Value
  unfolding read only_pool pool_params filter_text
  pool poolid filters =
      read env calls lib
        (lib.url_string (codes "/pools/") (lib.query (pool_params poolid (filter_text filters))))
        (codes "Pools")
      >>= λ ps. lift (only_pool poolid (pools_of ps))

  -- `poolUpdatePayload`: a field of the options wins over the id.
  unfoldable pub pool_update_payload : Text → Option lib.Value → Result (Map Json)
  pool_update_payload poolid none = ok ((codes "poolid", Json.string poolid) ∷ [])
  pool_update_payload poolid (some opt) = elim (as_map (lib.encode opt)) [
    | err e ↦ err e
    | ok given ↦ ok (insert_all given ((codes "poolid", Json.string poolid) ∷ []))
  ]

  unfoldable pub pool_update : lib.Value → Option lib.Value → Action (Option Json)
  unfolding pool_update_payload
  pool_update p opt = lift (pool_update_payload (pool_id p) opt) >>= λ given.
      put env calls (codes "/pools") (some (of_map given)) false

  unfoldable pub pool_delete : lib.Value → Action (Option Json)
  pool_delete p =
      delete env calls
        (lib.url_string (codes "/pools") (lib.query ((codes "poolid", pool_id p) ∷ []))) false

  -- null leaves the pool as it was.
  abbrev onto : Text → Option Json → Result lib.Value
  onto poolid none = ok (blank_pool poolid)
  onto poolid (some j) = decode_onto poolid j

  unfoldable pub get_deprecated : lib.Value → List Text → Action lib.Value
  unfolding filter_text
  get_deprecated p filters =
      let f = filter_text filters in
      get env calls
        (lib.url_string (codes "/pools/" ++ pool_id p)
          (if is_empty f then [] else lib.query ((codes "type", f) ∷ [])))
        true
      >>= λ a. lift (onto (pool_id p) a)

  unfoldable pub update_deprecated : lib.Value → Option lib.Value → Action (Option Json)
  update_deprecated p opt =
      put env calls (codes "/pools/" ++ pool_id p) (pointer env calls lib opt) false

  unfoldable pub delete_deprecated : lib.Value → Action (Option Json)
  delete_deprecated p = delete env calls (codes "/pools/" ++ pool_id p) false
