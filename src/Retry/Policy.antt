-- ===== src/Retry/Policy.antt =====
-- Every policy that the options build is usable.
use go_proxmox.Prelude.{◌<◌, Option, Bool, List, [], ◌∷◌, arith, map, if◌then◌else◌}
use go_proxmox.Prelude.Int.{ℤ, pos, negsuc, ltb_ℤ}
use go_proxmox.Retry.{
  RetryPolicy, Outcome, RetryOption, default_retry_policy, with_retry_max, with_retry_backoff,
  with_retry_condition, with_retry, apply_options,
}

-- The options that a caller can make: the policy's type is not exported.
pub data RetrySetting : Type 0 where
  max_attempts : ℤ → RetrySetting
  backoff : ℤ → ℤ → RetrySetting
  condition : Option (Outcome → Bool) → RetrySetting

abbrev pub setting : RetrySetting → RetryOption
setting (max_attempts n) = with_retry_max n
setting (backoff initial max) = with_retry_backoff initial max
setting (condition fn) = with_retry_condition fn

abbrev pub IsPositive : ℤ → Type 0
IsPositive (pos n) = 0 < n
IsPositive (negsuc _) = ⊥

pub record IsUsable (p : RetryPolicy) : Type 0 where
  pub tries : IsPositive p.max_attempts
  pub starts : IsPositive p.initial_backoff
  pub caps : IsPositive p.max_backoff

positive_or : (n k : ℤ) → IsPositive k → IsPositive (if ltb_ℤ (pos 0) n then n else k)
positive_or (pos n) k h = ground arith
positive_or (negsuc n) k h = h

at_least_one : (n : ℤ) → IsPositive (if ltb_ℤ n (pos 1) then pos 1 else n)
at_least_one (pos n) = ground arith
at_least_one (negsuc n) = ground arith

setting-IsUsable : (o : RetrySetting) (p : RetryPolicy) → IsUsable p → IsUsable (setting o p)
unfolding with_retry_max with_retry_backoff with_retry_condition
setting-IsUsable (max_attempts n) p h = record {
  tries = at_least_one n;
  starts = h.starts;
  caps = h.caps;
}
setting-IsUsable (backoff initial max) p h = record {
  tries = h.tries;
  starts = positive_or initial p.initial_backoff h.starts;
  caps = positive_or max p.max_backoff h.caps;
}
setting-IsUsable (condition Option.none) p h = h
setting-IsUsable (condition (Option.some fn)) p h = record {
  tries = h.tries;
  starts = h.starts;
  caps = h.caps;
}

apply_options-IsUsable :
    (os : List RetrySetting) (p : RetryPolicy)
    → IsUsable p
    → IsUsable (apply_options (map setting os) p)
unfolding apply_options
apply_options-IsUsable [] p h = h
apply_options-IsUsable (o ∷ os) p h =
    apply_options-IsUsable os (setting o p) (setting-IsUsable o p h)

-- Whatever options are given, in whatever order, the policy makes at least one attempt, and both
-- bounds of its backoff are above zero.
pub with_retry-IsUsable : (os : List RetrySetting) → IsUsable (with_retry (map setting os))
unfolding with_retry
with_retry-IsUsable os = apply_options-IsUsable os default_retry_policy (omega arith)
