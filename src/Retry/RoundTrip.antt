-- ===== src/Retry/RoundTrip.antt =====
-- The loop of retry.go's `RoundTrip`, with the body that each attempt sends.
pub mod Loop
pub mod Sends
use Prim.Native.Nat.{zero, suc}
use go_proxmox.Prelude.{
  ℕ, ◌+◌, Bool, true, false, not, ◌&&◌, ◌||◌, Option, none, some, List, [], ◌∷◌, if◌then◌else◌, ltb,
  ◌==◌, is_some,
}
use go_proxmox.Prelude.Text.{Text}
use go_proxmox.Prelude.Int.{ℤ, pos, negsuc, ltb_ℤ}
use go_proxmox.Errors.{Error, Result, ok, err}
use go_proxmox.Retry.{RetryPolicy, Outcome, answered, failed, compute_backoff, is_idempotent}

-- `req.Body`: none, or a reader with what is left to read or the error that reading gives.
pub data Body : Type 0 where
  no_body : Body
  reader : Result Text → Body

-- `req.GetBody` is nil, or gives the body anew.
pub record Outgoing : Type 0 where
  pub method : Text
  pub body : Body
  pub get_body : Option (Result Text)

pub data WireEvent : Type 0 where
  attempted : Outgoing → WireEvent
  drained : WireEvent
  waited : ℤ → WireEvent

-- The latest event is at the head.
abbrev pub Trace : Type 0
Trace = List WireEvent

-- The transport below, the request's context, the timer, the clock and the random numbers.
-- `interrupted` is the error of a sleep that the context's end cut short.
pub record Wire : Type 0 where
  pub round_trip : Trace → Outgoing → Outcome
  pub ctx_err : Trace → Option Error
  pub interrupted : Trace → ℤ → Option Error
  pub now : Trace → ℕ
  pub raw_random : Trace → ℕ
  pub http_time : Text → Option ℕ

-- What `rewind()` gives: an empty reader where `GetBody` fails.
abbrev pub rewound : Result Text → Text
rewound (ok t) = t
rewound (err _) = []

-- `snapshotBody`: what every rewind gives, if there is a rewind, and the request as it is left.
unfoldable pub snapshot_body : Outgoing → Result (Option Text × Outgoing)
snapshot_body req = elim req.get_body [
  | some again ↦ ok (some (rewound again), req)
  | none ↦ elim req.body [
    | no_body ↦ ok (none, req)
    | reader (err e) ↦ err e
    | reader (ok buf) ↦
        ok (some buf, record req { body = reader (ok buf); get_body = some (ok buf) })
  ]
]

-- `contextSleep`.
pub context_sleep : Wire → ℤ → Trace → Option Error
context_sleep w d h = if ltb_ℤ (pos 0) d then w.interrupted h d else w.ctx_err h

-- What the loop does after an attempt.
pub data Verdict : Type 0 where
  stop : Outcome → Verdict
  wait : ℤ → Verdict

-- `rewind` before every attempt but the first.
pub rewind_body : Option Text → ℕ → Outgoing → Outgoing
rewind_body none attempt req = req
rewind_body (some t) zero req = req
rewind_body (some t) (suc _) req = record req { body = reader (ok t) }

-- A transport reads the body to its end.
abbrev pub spent : Body → Body
spent no_body = no_body
spent (reader _) = reader (ok [])

-- `drainResponse`: without a response there is nothing to drain.
pub drain : Outcome → Trace → Trace
drain (answered _) h = drained ∷ h
drain (failed _) h = h

module _ (w : Wire) (p : RetryPolicy) (idempotent : Bool) (rewind : Option Text) where
  -- `left` is the number of attempts after this one.
  pub retry_or_stop : ℕ → ℕ → Trace → Outcome → Verdict
  retry_or_stop left attempt h o =
      if not (p.condition o) || (not idempotent || left == 0)
      then stop o
      else wait (compute_backoff w.http_time (w.now h) (w.raw_random h) p attempt o)

  -- A failure under a context that has ended is the context's error, and is never retried.
  pub verdict : ℕ → ℕ → Trace → Outcome → Verdict
  unfolding retry_or_stop
  verdict left attempt h (answered res) = retry_or_stop left attempt h (answered res)
  verdict left attempt h (failed e) = elim (w.ctx_err h) [
    | some ended ↦ stop (failed ended)
    | none ↦ retry_or_stop left attempt h (failed e)
  ]

  -- The loop, with the number of attempts left, the number made, the last outcome (nil, nil before
  -- the first) and the request as the attempts leave it.
  pub attempts : ℕ → ℕ → Option Outcome → Outgoing → Trace → Option Outcome × Trace
  unfolding verdict context_sleep rewind_body drain
  attempts zero attempt last req h = (last, h)
  attempts (suc left) attempt last req h =
      let req' = rewind_body rewind attempt req in
      let o = w.round_trip h req' in
      let h' : Trace = attempted req' ∷ h in
      elim (verdict left attempt h' o) [
        | stop final ↦ (some final, h')
        | wait d ↦ elim (context_sleep w d (drain o h')) [
          | some e ↦ (some (failed e), waited d ∷ drain o h')
          | none ↦
              attempts left (attempt + 1) (some o) (record req' { body = spent (req'.body) })
                (waited d ∷ drain o h')
        ]
      ]

abbrev pub count_of : ℤ → ℕ
count_of (pos n) = n
count_of (negsuc _) = 0

-- `RoundTrip`; no outcome is the result (nil, nil).
unfoldable pub round_trip : Wire → RetryPolicy → Outgoing → Trace → Option Outcome × Trace
unfolding attempts
round_trip w p req h = elim (w.ctx_err h) [
  | some e ↦ (some (failed e), h)
  | none ↦ elim (snapshot_body req) [
    | err e ↦ (some (failed e), h)
    | ok (rewind, req') ↦
        attempts w p (is_idempotent req.method || is_some rewind) rewind (count_of p.max_attempts) 0
          none req' h
  ]
]
