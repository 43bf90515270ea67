-- ===== src/Client/Response.antt =====
-- `handleResponse`.
use go_proxmox.Prelude.{ℕ, Bool, ◌||◌, Option, none, some, [], ◌++◌, if◌then◌else◌, ltb, ◌==◌}
use go_proxmox.Prelude.Text.{Text, codes}
use go_proxmox.Prelude.Map.{Map, lookup}
use go_proxmox.Errors.{Error, status_error, no_cause, because, error_text, Result, ok, err}
use go_proxmox.Json.{Json}
use go_proxmox.World.{Env, Response}

-- `res.StatusCode < http.StatusOK || res.StatusCode > 299`.
abbrev pub is_failure : ℕ → Bool
is_failure code = ltb code 200 || ltb 299 code

module _ (env : Env) where
  bad_request_prefix : Text → Text
  bad_request_prefix status = codes "bad request: " ++ (status ++ codes " - ")

  -- The branch for 400: the message is the decode error's, or quotes the key "errors" or the body.
  unfoldable pub bad_keys : Response → Option Text → Error
  unfolding bad_request_prefix
  bad_keys res (some errs) =
      status_error res.code res.status res.body (bad_request_prefix res.status ++ errs) no_cause
  bad_keys res none =
      status_error res.code res.status res.body (bad_request_prefix res.status ++ res.body) no_cause

  unfoldable pub bad_request : Response → Result (Map Text) → Error
  unfolding bad_keys
  bad_request res (err e) =
      status_error res.code res.status res.body (error_text env.status_text env.quote e) (because e)
  bad_request res (ok keys) = bad_keys res (lookup (codes "errors") keys)

  -- The value under "data", or the whole body where it has no such key.
  unfoldable pub payload : Text → Result Json
  payload body = elim (env.parse_object body) [
    | err e ↦ err e
    | ok keys ↦ elim (lookup (codes "data") keys) [
      | some value ↦ env.parse value
      | none ↦ env.parse body
    ]
  ]

  -- The whole function; `wants` is `v != nil`, and the result is what `v` is decoded from.
  unfoldable pub handle_response : Response → Bool → Result (Option Json)
  unfolding bad_request payload
  handle_response res wants = elim res.read_error [
    | some e ↦
        if is_failure res.code
        then err (status_error res.code res.status res.body [] (because e))
        else err e
    | none ↦
        if res.code == 500 || res.code == 501
        then err (status_error res.code res.status res.body [] no_cause)
        else if res.code == 400
        then err (bad_request res (env.parse_object res.body))
        else if is_failure res.code
        then err (status_error res.code res.status res.body [] no_cause)
        else if wants
        then elim (payload res.body) [ err e ↦ err e | ok v ↦ ok (some v) ]
        else ok none
  ]
