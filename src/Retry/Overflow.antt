-- ===== src/Retry/Overflow.antt =====
-- A Retry-After header of more seconds than nanoseconds fit into an int64.
use go_proxmox.Prelude.{ℕ, ◌*◌, ◌≤◌, ◌<◌, ◌≡◌, true, false, Option, some, arith}
use go_proxmox.Prelude.Text.{Text, codes, trim_space, is_empty}
use go_proxmox.Prelude.Int.{ℤ, pos, is_neg, two63, two64, wrap64, times}
use go_proxmox.Errors.Decimal.{atoi}
use go_proxmox.World.{Response, header_get}
use go_proxmox.Retry.{RetryPolicy, answered, clamp_delay, compute_backoff, second}
use go_proxmox.Retry.Policy.{IsPositive}

wrapped_is_neg :
    (n : ℕ) → two63 ≤ n * second → n * second < two64 → is_neg (wrap64 (pos (n * second))) ≡ true
unfolding wrap64
wrapped_is_neg n lo hi = ground arith

clamp_delay_neg :
    (p : RetryPolicy) (d : ℤ) → is_neg d ≡ true → IsPositive p.max_backoff → clamp_delay p d ≡ pos 0
unfolding clamp_delay
clamp_delay_neg p d h bound = ground arith

-- Where the policy's bound is above zero, a server that asks for a wait of 2^63 to 2^64 nanoseconds, in whole seconds, gets none: the
-- multiplication wraps, and the next attempt is made at once instead of after the bound.
pub retry_after_overflows :
    (http_time : Text → Option ℕ) (now raw : ℕ) (p : RetryPolicy) (attempt n : ℕ) (res : Response)
    → IsPositive p.max_backoff
    → is_empty (trim_space (header_get res (codes "Retry-After"))) ≡ false
    → atoi (trim_space (header_get res (codes "Retry-After"))) ≡ some (pos n)
    → two63 ≤ n * second
    → n * second < two64
    → compute_backoff http_time now raw p attempt (answered res) ≡ pos 0
unfolding compute_backoff
retry_after_overflows http_time now raw p attempt n res bound present seconds lo hi =
    rw (present, compute_backoff)
      (rw (seconds, compute_backoff)
        (clamp_delay_neg p (wrap64 (times (pos n) second)) (wrapped_is_neg n lo hi) bound))
