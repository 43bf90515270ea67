-- ===== src/Retry/RoundTrip/Loop.antt =====
-- What the attempts of one round trip send, how many there are, and how they end.
use Prim.Native.Nat.{zero, suc}
use go_proxmox.Prelude.{
  ℕ, ◌+◌, ◌≡◌, refl, ◌≢◌, Bool, true, Option, none, some, [], ◌∷◌, arith, is_some, All,
  Option-cases, inl, inr, ◌⊎◌,
}
use go_proxmox.Prelude.Text.{Text}
use go_proxmox.Prelude.Int.{ℤ}
use go_proxmox.Errors.{Error, ok}
use go_proxmox.World.{Response}
use go_proxmox.Retry.{RetryPolicy, Outcome, answered, failed}
use go_proxmox.Retry.RoundTrip.{
  reader, Outgoing, WireEvent, attempted, drained, waited, Trace, Wire, Verdict, stop, wait,
  verdict, attempts, rewind_body, context_sleep, drain, spent,
}

-- The attempts that a trace shows.
abbrev pub tries : Trace → ℕ
tries [] = 0
tries (attempted _ ∷ h) = suc (tries h)
tries (drained ∷ h) = tries h
tries (waited _ ∷ h) = tries h

-- Every attempt in a trace sends the body `t` from its start.
abbrev pub Sends : Text → WireEvent → Type 0
Sends t (attempted r) = r.body ≡ reader (ok t)
Sends t drained = Unit
Sends t (waited _) = Unit

pub drain_tries : (o : Outcome) (h : Trace) → tries (drain o h) ≡ tries h
unfolding drain
drain_tries (answered _) h = refl
drain_tries (failed _) h = refl

pub drain-Sends : (t : Text) (o : Outcome) (h : Trace) → All (Sends t) h → All (Sends t) (drain o h)
unfolding drain
drain-Sends t (answered _) h a = (tt, a)
drain-Sends t (failed _) h a = a

Verdict-cases : (v : Verdict) → ((o : Outcome) × (v ≡ stop o)) ⊎ ((d : ℤ) × (v ≡ wait d))
Verdict-cases (stop o) = inl (o, refl)
Verdict-cases (wait d) = inr (d, refl)

module _ (w : Wire) (p : RetryPolicy) (idempotent : Bool) (rewind : Option Text) where
  -- What is true of the trace of every attempt, of a drain and of a wait, is true of the loop's.
  module _ {ℓ} (P : ℕ → Trace → Type ℓ) (Q : Outgoing → Type 0)
      (tried : (k : ℕ) (h : Trace) (r : Outgoing) → Q r → P (suc k) h → P k (attempted r ∷ h))
      (rested : (k : ℕ) (h : Trace) (o : Outcome) (d : ℤ) → P k h → P k (waited d ∷ drain o h))
      (rewound : (n : ℕ) (r : Outgoing) → Q (rewind_body rewind (n + 1) r)) where
    pub attempts_inv :
        (left attempt : ℕ) (last : Option Outcome) (req : Outgoing) (h : Trace)
        → Q (rewind_body rewind attempt req)
        → P left h
        → (k : ℕ) × P k (attempts w p idempotent rewind left attempt last req h).1
    unfolding attempts
    attempts_inv zero attempt last req h q i = (zero, i)
    attempts_inv (suc left) attempt last req h q i =
        let req' = rewind_body rewind attempt req in
        let o = w.round_trip h req' in
        let h' : Trace = attempted req' ∷ h in
        let i' : P left h' = tried left h req' q i in
        elim (Verdict-cases (verdict w p idempotent rewind left attempt h' o)) [
          | inl (final, e) ↦ rw (e, attempts) (left, i')
          | inr (d, e) ↦ elim (Option-cases (context_sleep w d (drain o h'))) [
            | inl awake ↦
                rw (e, awake, attempts)
                  (attempts_inv left (attempt + 1) (some o)
                    (record req' { body = spent (req'.body) }) (waited d ∷ drain o h')
                    (rewound attempt _) (rested left h' o d i'))
            | inr (ended, asleep) ↦ rw (e, asleep, attempts) (left, rested left h' o d i')
          ]
        ]

  pub wait_needs_more :
      (attempt : ℕ) (h : Trace) (o : Outcome) (d : ℤ)
      → verdict w p idempotent rewind 0 attempt h o ≢ wait d
  unfolding verdict
  wait_needs_more attempt h (answered res) d e = ground arith
  wait_needs_more attempt h (failed x) d e = ground arith

  stop_at_retryable :
      (left attempt : ℕ) (h : Trace) (o : Outcome) (res : Response)
      → verdict w p idempotent rewind left attempt h o ≡ stop (answered res)
      → idempotent ≡ true
      → p.condition (answered res) ≡ true
      → left ≡ 0
  unfolding verdict
  stop_at_retryable left attempt h (answered r) res e i c = ground arith
  stop_at_retryable left attempt h (failed x) res e i c = ground arith

  module _ (left attempt : ℕ) (last : Option Outcome) (req : Outgoing) (h : Trace) where
    abbrev pub request : Outgoing
    request = rewind_body rewind attempt req

    abbrev pub outcome : Outcome
    outcome = w.round_trip h request

    abbrev pub after : Trace
    after = attempted request ∷ h

    pub attempts_stops :
        (final : Outcome)
        → verdict w p idempotent rewind left attempt after outcome ≡ stop final
        → attempts w p idempotent rewind (suc left) attempt last req h ≡ (some final, after)
    unfolding attempts
    attempts_stops final e = rw (e, attempts)

    attempts_asleep :
        (d : ℤ) (ended : Error)
        → verdict w p idempotent rewind left attempt after outcome ≡ wait d
        → context_sleep w d (drain outcome after) ≡ some ended
        → attempts w p idempotent rewind (suc left) attempt last req h
          ≡ (some (failed ended), waited d ∷ drain outcome after)
    unfolding attempts
    attempts_asleep d ended e asleep = rw (e, asleep, attempts)

    attempts_goes_on :
        (d : ℤ)
        → verdict w p idempotent rewind left attempt after outcome ≡ wait d
        → context_sleep w d (drain outcome after) ≡ none
        → attempts w p idempotent rewind (suc left) attempt last req h
          ≡ attempts w p idempotent rewind left
              (attempt + 1)
              (some outcome)
              (record request { body = spent (request.body) })
              (waited d ∷ drain outcome after)
    unfolding attempts
    attempts_goes_on d e awake = rw (e, awake, attempts)

    module _ (res : Response) (replay : idempotent ≡ true)
        (again : p.condition (answered res) ≡ true) where
      stopped_at :
          (final : Outcome)
          → verdict w p idempotent rewind left attempt after outcome ≡ stop final
          → some final ≡ some (answered res)
          → left ≡ 0
      stopped_at final v e =
          stop_at_retryable left attempt after outcome res (cc (v, e)) replay again

      exhausted_step :
          ((d : ℤ)
            → verdict w p idempotent rewind left attempt after outcome ≡ wait d
            → let h2 : Trace = waited d ∷ drain outcome after in
              let rest =
                attempts w p idempotent rewind left
                  (attempt + 1)
                  (some outcome)
                  (record request { body = spent (request.body) })
                  h2 in
              rest.0 ≡ some (answered res) → tries rest.1 ≡ tries h2 + left)
          → (attempts w p idempotent rewind (suc left) attempt last req h).0 ≡ some (answered res)
          → tries (attempts w p idempotent rewind (suc left) attempt last req h).1
            ≡ tries h + suc left
      exhausted_step ih e =
          elim (Verdict-cases (verdict w p idempotent rewind left attempt after outcome)) [
            | inl (final, v) ↦
                let eq = attempts_stops final v in
                rw eq (omega (arith, stopped_at final v (rw eq at e)))
            | inr (d, v) ↦ elim (Option-cases (context_sleep w d (drain outcome after))) [
              | inl awake ↦
                  let eq = attempts_goes_on d v awake in
                  rw eq (omega (arith, ih d v (rw eq at e), drain_tries outcome after))
              | inr (ended, asleep) ↦ let eq = attempts_asleep d ended v asleep in cc (rw eq at e)
            ]
          ]

  -- A response that asks for another attempt is the result only after all attempts.
  pub attempts_exhausted :
      (left attempt : ℕ) (last : Option Outcome) (req : Outgoing) (h : Trace) (res : Response)
      → idempotent ≡ true
      → p.condition (answered res) ≡ true
      → (attempts w p idempotent rewind (suc left) attempt last req h).0 ≡ some (answered res)
      → tries (attempts w p idempotent rewind (suc left) attempt last req h).1 ≡ tries h + suc left
  attempts_exhausted zero attempt last req h res i c =
      exhausted_step zero attempt last req h res i c
        (λ d v e. absurd (wait_needs_more attempt _ _ d v))
  attempts_exhausted (suc left) attempt last req h res i c =
      exhausted_step (suc left) attempt last req h res i c
        (λ d v e. attempts_exhausted left (attempt + 1) _ _ _ res i c e)

  -- After an attempt there is an outcome.
  pub attempts_some :
      (left attempt : ℕ) (last : Option Outcome) (req : Outgoing) (h : Trace)
      → (left ≡ 0 → is_some last ≡ true)
      → is_some (attempts w p idempotent rewind left attempt last req h).0 ≡ true
  unfolding attempts
  attempts_some zero attempt last req h k = k refl
  attempts_some (suc left) attempt last req h k =
      let o = outcome left attempt last req h in
      let h' : Trace = after left attempt last req h in
      elim (Verdict-cases (verdict w p idempotent rewind left attempt h' o)) [
        | inl (final, e) ↦ rw (e, attempts)
        | inr (d, e) ↦ elim (Option-cases (context_sleep w d (drain o h'))) [
          | inl awake ↦
              rw (e, awake, attempts) (attempts_some left (attempt + 1) (some o) _ _ (λ _. refl))
          | inr (ended, asleep) ↦ rw (e, asleep, attempts)
        ]
      ]
