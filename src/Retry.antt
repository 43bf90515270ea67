-- ===== src/Retry.antt =====
-- retry.go: the policy and its options, the condition, the backoff, the snapshot of a body, and
-- the loop of `RoundTrip`. Durations are Go's int64 nanoseconds.
pub mod Policy
pub mod Backoff
pub mod RoundTrip
pub mod Overflow
mod Tests
use Prim.Native.Nat.{zero, suc}
use go_proxmox.Prelude.{
  ℕ, ◌+◌, ◌-◌, ◌*◌, ◌%◌, ◌^◌, Bool, true, false, not, ◌&&◌, ◌||◌, Option, none, some, List, [], ◌∷◌,
  if◌then◌else◌, ltb, ◌==◌, is_some,
}
use go_proxmox.Prelude.Text.{Text, codes, is_empty, text_eq, trim_space}
use go_proxmox.Prelude.Int.{ℤ, pos, negsuc, is_neg, ltb_ℤ, two63, times, wrap64}
use go_proxmox.Errors.{Error, Result, ok, err}
use go_proxmox.Errors.Decimal.{atoi}
use go_proxmox.World.{Response, header_get}

-- The results `(res, err)` of a round trip: exactly one is there.
pub data Outcome : Type 0 where
  answered : Response → Outcome
  failed : Error → Outcome

-- `retryPolicy`; the clock, the timer and the random numbers are in `Wire`.
pub record RetryPolicy : Type 0 where
  pub max_attempts : ℤ
  pub initial_backoff : ℤ
  pub max_backoff : ℤ
  pub condition : Outcome → Bool

abbrev pub second : ℕ
second = 10 ^ 9

unfoldable pub default_retry_condition : Outcome → Bool
default_retry_condition (failed _) = true
default_retry_condition (answered res) =
    res.code == 502 || (res.code == 503 || (res.code == 504 || res.code == 429))

abbrev pub default_retry_policy : RetryPolicy
default_retry_policy = record {
  max_attempts = pos 3;
  initial_backoff = pos (200 * 10 ^ 6);
  max_backoff = pos (5 * second);
  condition = default_retry_condition;
}

abbrev pub RetryOption : Type 0
RetryOption = RetryPolicy → RetryPolicy

unfoldable pub with_retry_max : ℤ → RetryOption
with_retry_max n p = record p { max_attempts = if ltb_ℤ n (pos 1) then pos 1 else n }

unfoldable pub with_retry_backoff : ℤ → ℤ → RetryOption
with_retry_backoff initial max p = record p {
  initial_backoff = if ltb_ℤ (pos 0) initial then initial else p.initial_backoff;
  max_backoff = if ltb_ℤ (pos 0) max then max else p.max_backoff;
}

-- A nil predicate changes nothing.
unfoldable pub with_retry_condition : Option (Outcome → Bool) → RetryOption
with_retry_condition none p = p
with_retry_condition (some fn) p = record p { condition = fn }

apply_options : List RetryOption → RetryPolicy → RetryPolicy
apply_options [] p = p
apply_options (o ∷ os) p = apply_options os (o p)

-- The policy that `WithRetry` installs.
unfoldable pub with_retry : List RetryOption → RetryPolicy
unfolding apply_options
with_retry opts = apply_options opts default_retry_policy

-- `parseRetryAfter`; `http_time` is http.ParseTime, and times are in nanoseconds. Go's
-- multiplication wraps, and its `Sub` stops at the largest duration.
module _ (http_time : Text → Option ℕ) where
  unfoldable pub parse_retry_after : Text → ℕ → Option ℤ
  parse_retry_after v now =
      let v = trim_space v in
      if is_empty v then none else elim (atoi v) [
        | some secs ↦ if is_neg secs then none else some (wrap64 (times secs second))
        | none ↦ elim (http_time v) [
          | none ↦ none
          | some t ↦ some (pos (if ltb (t - now) two63 then t - now else two63 - 1))
        ]
      ]

-- `for i := 0; i < attempt && window < max; i++ { window *= 2 }`.
unfoldable pub grow : ℕ → ℤ → ℤ → ℤ
grow zero max window = window
grow (suc attempt) max window =
    let rest = grow attempt max (wrap64 (times window 2)) in
    if ltb_ℤ window max then rest else window

-- `rand.Int63n(window)` for a window above 0, from a raw random number.
sample : ℕ → ℤ → ℤ
sample raw (pos window) = pos (raw % window)
sample raw (negsuc _) = pos 0

-- The window of an attempt, full jitter's upper end.
unfoldable pub backoff_window : RetryPolicy → ℕ → ℤ
unfolding grow
backoff_window p attempt =
    let window = grow attempt p.max_backoff p.initial_backoff in
    if ltb_ℤ p.max_backoff window then p.max_backoff else window

-- The delay that a Retry-After header asks for, brought into the policy's range.
unfoldable pub clamp_delay : RetryPolicy → ℤ → ℤ
clamp_delay p d =
    let d' = if ltb_ℤ p.max_backoff d then p.max_backoff else d in if is_neg d' then pos 0 else d'

module _ (http_time : Text → Option ℕ) (now raw : ℕ) (p : RetryPolicy) (attempt : ℕ) where
  -- A window that is not above 0 gives no delay.
  jittered : ℤ
  unfolding sample backoff_window
  jittered =
      let window = backoff_window p attempt in
      if ltb_ℤ (pos 0) window then sample raw window else pos 0

  -- `computeBackoff`.
  unfoldable pub compute_backoff : Outcome → ℤ
  unfolding jittered clamp_delay parse_retry_after
  compute_backoff (failed _) = jittered
  compute_backoff (answered res) =
      elim (parse_retry_after http_time (header_get res (codes "Retry-After")) now) [
        | some d ↦ clamp_delay p d
        | none ↦ jittered
      ]

unfoldable pub is_idempotent : Text → Bool
is_idempotent method =
    text_eq method (codes "GET")
    || (text_eq method (codes "HEAD")
        || (text_eq method (codes "PUT")
            || (text_eq method (codes "DELETE")
                || (text_eq method (codes "OPTIONS") || text_eq method (codes "TRACE")))))
