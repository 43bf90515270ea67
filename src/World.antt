-- ===== src/World.antt =====
-- What surrounds the client: the network, the clock and the timers, as an environment that answers
-- from the history of what the client did; the data that crosses that border (types.go, lines
-- 22-47); and the parts of Go's library that stay parameters.
use go_proxmox.Prelude.{ℕ, Option, none, some, [], List}
use go_proxmox.Prelude.Text.{Text}
use go_proxmox.Prelude.Int.{ℤ}
use go_proxmox.Prelude.Map.{Map, lookup}
use go_proxmox.Errors.{Error, Result}
use go_proxmox.Json.{Json}

-- `*http.Request`: what of it the client sets. The headers are in the order of `Header.Add`.
pub record Request : Type 0 where
  pub method : Text
  pub url : Text
  pub headers : Map Text
  pub body : Option Text

-- `*http.Response`: `body` is what was read of the body until its end or the error.
pub record Response : Type 0 where
  pub code : ℕ
  pub status : Text
  pub headers : Map Text
  pub body : Text
  pub read_error : Option Error

-- `res.Header.Get(key)`, for a key in canonical form.
unfoldable pub header_get : Response → Text → Text
header_get res key = elim (lookup key res.headers) [ none ↦ [] | some v ↦ v ]

pub record Credentials : Type 0 where
  pub username : Text
  pub password : Text
  pub otp : Text
  pub path : Text
  pub privs : Text
  pub realm : Text

-- A session ticket. The fields `Cap` and `ClusterName` are never read by the client.
pub record Session : Type 0 where
  pub username : Text
  pub csrf_prevention_token : Text
  pub cap : Map (Map ℤ)
  pub cluster_name : Text
  pub ticket : Text

-- What the client did, and the environment can see.
pub data Event : Type 0 where
  sent : Request → Event
  slept : ℤ → Event

-- The latest event is at the head.
abbrev pub History : Type 0
History = List Event

-- `answer h r` is what `httpClient.Do` gives for the request `r` after the history `h`; `now` is
-- the clock in nanoseconds. `request_error` is the check of http.NewRequestWithContext. `parse`,
-- `parse_object` (into a map of raw messages), `render_credentials` and `decode_session` (into a
-- `*Session` that may be nil, with what is left there beside the error) are encoding/json;
-- `status_text` is http.StatusText, and `quote` is strconv.Quote.
pub record Env : Type 0 where
  pub answer : History → Request → Result Response
  pub now : History → ℕ
  pub request_error : Text → Text → Option Error
  pub parse : Text → Result Json
  pub parse_object : Text → Result (Map Text)
  pub render : Json → Text
  pub render_credentials : Option Credentials → Text
  pub decode_session : Option Session → Json → Option Error × Option Session
  pub status_text : ℕ → Text
  pub quote : Text → Text
