-- ===== src/Client/Outcome.antt =====
-- When `handleResponse` reports an error, and which.
use go_proxmox.Prelude.Map.{Map, lookup}
use go_proxmox.Prelude.{
  ◌==◌, ◌||◌, ◌≡◌, refl, Bool, true, false, Option, none, some, arith, is_some, Bool-cases, subst,
  Option-cases, inl, inr,
}
use go_proxmox.Prelude.Text.{Text, codes}
use go_proxmox.Errors.{status_error, Result, ok, err}
use go_proxmox.Json.{Json}
use go_proxmox.World.{Env, Response}
use go_proxmox.Client.Response.{bad_keys, bad_request, is_failure, handle_response}

-- A StatusError with the response's code, status and body.
abbrev pub Reports : Response → Result (Option Json) → Type 0
Reports res (err (status_error code status body _ _)) =
    (code ≡ res.code) × (status ≡ res.status) × (body ≡ res.body)
Reports res _ = ⊥

module _ (env : Env) (res : Response) (wants : Bool) where
  bad_keys-Reports : (o : Option Text) → Reports res (err (bad_keys env res o))
  unfolding bad_keys
  bad_keys-Reports none = (refl, refl, refl)
  bad_keys-Reports (some _) = (refl, refl, refl)

  bad_request-Reports : (r : Result (Map Text)) → Reports res (err (bad_request env res r))
  unfolding bad_request
  bad_request-Reports (err e) = (refl, refl, refl)
  bad_request-Reports (ok keys) = bad_keys-Reports (lookup (codes "errors") keys)

  handle_response-Reports : is_failure res.code ≡ true → Reports res (handle_response env res wants)
  unfolding handle_response
  handle_response-Reports h = elim (Option-cases res.read_error) [
    | inr (e, r) ↦ rw (r, h) (refl, refl, refl)
    | inl r ↦ elim (Bool-cases (res.code == 500 || res.code == 501)) [
      | inl x ↦ rw (r, x) (refl, refl, refl)
      | inr x ↦ elim (Bool-cases (res.code == 400)) [
        | inl y ↦ rw (r, x, y) (bad_request-Reports (env.parse_object res.body))
        | inr y ↦ rw (r, x, y, h) (refl, refl, refl)
      ]
    ]
  ]

  handle_response_ok :
      (a : Option Json)
      → handle_response env res wants ≡ ok a
      → (res.read_error ≡ none) × (is_some a ≡ wants)
  unfolding handle_response
  handle_response_ok a h = ground arith

  success :
      (a : Option Json)
      → handle_response env res wants ≡ ok a
      → (is_failure res.code ≡ false) × ((res.read_error ≡ none) × (is_some a ≡ wants))
  success a h = elim (Bool-cases (is_failure res.code)) [
    | inl f ↦ absurd (subst (Reports res) h (handle_response-Reports f))
    | inr f ↦ (f, handle_response_ok a h)
  ]

  -- A response whose code is not from 200 to 299 is always an error, a StatusError with that code,
  -- the status and the body, also where the body cannot be read; and no error means such a code,
  -- a body read to its end, and a payload exactly if one was wanted.
  pub handle_response_lem :
      (is_failure res.code ≡ true → Reports res (handle_response env res wants))
      × ((a : Option Json)
          → handle_response env res wants ≡ ok a
          → (is_failure res.code ≡ false) × ((res.read_error ≡ none) × (is_some a ≡ wants)))
  handle_response_lem = (handle_response-Reports, success)
