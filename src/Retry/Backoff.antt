-- ===== src/Retry/Backoff.antt =====
-- The delay before the next attempt.
use Prim.Native.Nat.{zero, suc, min}
use native.Mathlib.Nat.{pow-suc}
use go_proxmox.Prelude.{
  ℕ, ◌*◌, ◌^◌, ◌%◌, ◌≤◌, ◌<◌, ◌≡◌, true, false, Option, arith, ltb, if◌then◌else◌, Bool-cases, inl,
  inr, Option-cases, ◌∙◌, ap, sym, ltb→lt, ltb-false→le,
}
use go_proxmox.Prelude.Text.{Text, codes}
use go_proxmox.Prelude.Int.{ℤ, pos, negsuc, ltb_ℤ, is_neg, wrap64_pos}
use go_proxmox.World.{header_get}
use go_proxmox.Retry.{
  RetryPolicy, Outcome, answered, failed, grow, sample, backoff_window, jittered, clamp_delay,
  compute_backoff, parse_retry_after,
}
use go_proxmox.Retry.Policy.{IsPositive}

-- From nothing to the bound.
abbrev pub InRange : ℤ → ℤ → Type 0
InRange (pos cap) (pos d) = d ≤ cap
InRange _ _ = ⊥

clamped :
    (cap d : ℤ)
    → IsPositive cap
    → InRange cap (let d' = if ltb_ℤ cap d then cap else d in if is_neg d' then pos 0 else d')
clamped (pos c) (pos n) h = ground arith
clamped (pos c) (negsuc n) h = ground arith
clamped (negsuc c) d h = absurd h

sample_lt : (raw n : ℕ) → 0 < n → raw % n < n
sample_lt raw n h = omega arith

drawn :
    (raw : ℕ) (cap w : ℤ)
    → IsPositive cap
    → InRange cap
        (let v = if ltb_ℤ cap w then cap else w in if ltb_ℤ (pos 0) v then sample raw v else pos 0)
unfolding sample
drawn raw (pos c) (pos n) h = ground (arith, sample_lt raw c, sample_lt raw n)
drawn raw (pos c) (negsuc n) h = ground arith
drawn raw (negsuc c) w h = absurd h

clamp_delay-InRange :
    (p : RetryPolicy) (d : ℤ) → IsPositive p.max_backoff → InRange p.max_backoff (clamp_delay p d)
unfolding clamp_delay
clamp_delay-InRange p d h = clamped p.max_backoff d h

module _ (http_time : Text → Option ℕ) (now raw : ℕ) (p : RetryPolicy) (attempt : ℕ)
    (cap_pos : IsPositive p.max_backoff) where
  jittered-InRange : InRange p.max_backoff (jittered http_time now raw p attempt)
  unfolding jittered
  jittered-InRange = drawn raw p.max_backoff (grow attempt p.max_backoff p.initial_backoff) cap_pos

  -- Where the policy's bound is above zero, the delay is never below zero and never above that
  -- bound: with a Retry-After header of any content, without one, and after a failure without a
  -- response.
  pub compute_backoff-InRange :
      (o : Outcome) → InRange p.max_backoff (compute_backoff http_time now raw p attempt o)
  unfolding compute_backoff
  compute_backoff-InRange (failed e) = jittered-InRange
  compute_backoff-InRange (answered res) =
      elim (Option-cases (parse_retry_after http_time (header_get res (codes "Retry-After")) now)) [
        | inl e ↦ rw (e, compute_backoff) jittered-InRange
        | inr (d, e) ↦ rw (e, compute_backoff) (clamp_delay-InRange p d cap_pos)
      ]

abbrev exponential : ℕ → ℕ → ℕ → ℤ
exponential cap initial attempt = pos (min cap (initial * 2 ^ attempt))

doubling : (w k : ℕ) → w * 2 * 2 ^ k ≡ w * 2 ^ suc k
doubling w k = rw (pow-suc 2 k) (omega arith)

pow_pos : (k : ℕ) → 0 < 2 ^ k
pow_pos zero = omega arith
pow_pos (suc k) = rw (pow-suc 2 k) (omega (arith, pow_pos k))

le-mul-pow : (w k : ℕ) → w ≤ w * 2 ^ k
le-mul-pow w zero = omega arith
le-mul-pow w (suc k) = rw (pow-suc 2 k) (omega (arith, le-mul-pow w k))

saturated : (c w k : ℕ) → c ≤ w → min c (w * 2 ^ k) ≡ c
saturated c w k h = omega (arith, le-mul-pow w k)

grow_doubles :
    (k c w : ℕ)
    → c ≤ 2 ^ 62
    → ltb w c ≡ true
    → grow (suc k) (pos c) (pos w) ≡ grow k (pos c) (pos (w * 2))
unfolding grow
grow_doubles k c w h e =
    rw e (ap (λ v. grow k (pos c) v) (wrap64_pos (w * 2) (omega (arith, ltb→lt w c e))))

grow_stops : (k c w : ℕ) → ltb w c ≡ false → grow (suc k) (pos c) (pos w) ≡ pos w
unfolding grow
grow_stops k c w e = rw e

abbrev cut : ℕ → ℤ → ℤ
cut c v = if ltb_ℤ (pos c) v then pos c else v

cut_of_ge : (c w : ℕ) → ltb w c ≡ false → cut c (pos w) ≡ pos c
cut_of_ge c w e = ground arith

-- Doubling under the bound, then cutting at it, is the minimum of the bound and the power.
grow-capped : (k c w : ℕ) → c ≤ 2 ^ 62 → cut c (grow k (pos c) (pos w)) ≡ exponential c w k
grow-capped zero c w h = unfold grow in ground arith
grow-capped (suc k) c w h = elim (Bool-cases (ltb w c)) [
  | inl e ↦
      rw (grow_doubles k c w h e)
        (grow-capped k c (w * 2) h ∙ ap (λ t. pos (min c t)) (doubling w k))
  | inr e ↦
      ap (cut c) (grow_stops k c w e)
      ∙ cut_of_ge c w e
      ∙ ap pos (sym (saturated c w (suc k) (omega (arith, ltb-false→le w c e))))
]

-- The window of an attempt is the smaller of the bound and the first window doubled once for each
-- attempt before, for every policy whose bound is at most 2^62 nanoseconds.
pub backoff_window_lem :
    (p : RetryPolicy) (attempt initial cap : ℕ)
    → p.initial_backoff ≡ pos initial
    → p.max_backoff ≡ pos cap
    → cap ≤ 2 ^ 62
    → backoff_window p attempt ≡ pos (min cap (initial * 2 ^ attempt))
unfolding backoff_window
backoff_window_lem p attempt initial cap ei ec h = simp (ei, ec) (grow-capped attempt cap initial h)
