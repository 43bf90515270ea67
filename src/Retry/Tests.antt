-- ===== src/Retry/Tests.antt =====
-- Runs of the laws on retries.
use go_proxmox.Prelude.{
  ◌≤◌, ◌*◌, ◌^◌, ◌≡◌, refl, true, false, none, some, [], ◌∷◌, arith, is_some, All, inl, map,
}
use go_proxmox.Prelude.Text.{Text, codes, is_empty, trim_space, text_eq}
use go_proxmox.Prelude.Map.{lookup}
use go_proxmox.Errors.Decimal.{atoi}
use go_proxmox.Prelude.Int.{pos, negsuc, wrap64}
use go_proxmox.Errors.{ok}
use go_proxmox.World.{Response, header_get}
use go_proxmox.Retry.{
  default_retry_policy, default_retry_condition, is_idempotent, answered, with_retry,
  compute_backoff, backoff_window,
}
use go_proxmox.Retry.Policy.{max_attempts, backoff, setting, IsUsable, with_retry-IsUsable}
use go_proxmox.Retry.Backoff.{InRange, compute_backoff-InRange, backoff_window_lem}
use go_proxmox.Retry.Overflow.{retry_after_overflows}
use go_proxmox.Retry.RoundTrip.{Outgoing, reader, Wire, round_trip, snapshot_body}
use go_proxmox.Retry.RoundTrip.Loop.{tries, Sends}
use go_proxmox.Retry.RoundTrip.Sends.{
  IsBuffered, round_trip-Sends, round_trip_some, round_trip_exhausted,
}

-- A gateway that is busy and asks for `after` seconds.
abbrev busy : Text → Response
busy after = record {
  code = 503;
  status = codes "503 Service Unavailable";
  headers = (codes "Retry-After", after) ∷ [];
  body = [];
  read_error = none;
}

abbrev always_busy : Wire
always_busy = record {
  round_trip = λ h r. answered (busy (codes "1"));
  ctx_err = λ h. none;
  interrupted = λ h d. none;
  now = λ h. 0;
  raw_random = λ h. 7;
  http_time = λ v. none;
}

abbrev creation : Outgoing
creation = record { method = codes "POST"; body = reader (ok (codes "vmid=100")); get_body = none }

creation-IsBuffered : IsBuffered (codes "vmid=100") creation
creation-IsBuffered = record { full = refl; again = inl refl }

with_retry_example :
    IsUsable (with_retry (map setting (max_attempts (negsuc 4) ∷ backoff (pos 9) (pos 0) ∷ [])))
with_retry_example = with_retry-IsUsable (max_attempts (negsuc 4) ∷ backoff (pos 9) (pos 0) ∷ [])

compute_backoff_example :
    InRange
      (pos (5 * 10 ^ 9))
      (compute_backoff (λ v. none) 0 7 default_retry_policy 1 (answered (busy (codes "3600"))))
compute_backoff_example =
    compute_backoff-InRange (λ v. none) 0 7 default_retry_policy 1 (omega arith)
      (answered (busy (codes "3600")))

backoff_window_example : backoff_window default_retry_policy 3 ≡ pos (1600 * 10 ^ 6)
backoff_window_example =
    backoff_window_lem default_retry_policy 3 (200 * 10 ^ 6) (5 * 10 ^ 9) refl refl (omega arith)

present :
    is_empty (trim_space (header_get (busy (codes "9300000000")) (codes "Retry-After"))) ≡ false
unfolding trim_space header_get lookup text_eq
present = refl

seconds :
    atoi (trim_space (header_get (busy (codes "9300000000")) (codes "Retry-After")))
    ≡ some (pos 9300000000)
unfolding trim_space header_get lookup text_eq atoi
seconds = refl

retry_after_example :
    compute_backoff (λ v. none) 0 7 default_retry_policy 0 (answered (busy (codes "9300000000")))
    ≡ pos 0
retry_after_example =
    retry_after_overflows (λ v. none) 0 7 default_retry_policy 0 9300000000
      (busy (codes "9300000000")) (omega arith) present seconds (omega arith) (omega arith)

round_trip-Sends_example :
    (tries (round_trip always_busy default_retry_policy creation []).1 ≤ 3)
    × All (Sends (codes "vmid=100")) (round_trip always_busy default_retry_policy creation []).1
round_trip-Sends_example =
    round_trip-Sends always_busy default_retry_policy (codes "vmid=100") creation
      creation-IsBuffered

round_trip_some_example : is_some (round_trip always_busy default_retry_policy creation []).0 ≡ true
round_trip_some_example = round_trip_some always_busy default_retry_policy 2 refl creation

last_answer :
    (round_trip always_busy default_retry_policy creation []).0 ≡ some (answered (busy (codes "1")))
unfolding round_trip snapshot_body default_retry_condition is_idempotent text_eq compute_backoff
    trim_space header_get lookup atoi wrap64
last_answer = refl

round_trip_exhausted_example : tries (round_trip always_busy default_retry_policy creation []).1 ≡ 3
unfolding default_retry_condition
round_trip_exhausted_example =
    round_trip_exhausted always_busy default_retry_policy 2 refl (codes "vmid=100") creation
      (busy (codes "1")) creation-IsBuffered refl last_answer
