-- ===== src/Retry/RoundTrip/Sends.antt =====
-- The promises of `RoundTrip`: the number of attempts, what each sends, and when it gives up.
use Prim.Native.Nat.{suc}
use go_proxmox.Prelude.{
  ℕ, ◌+◌, ◌≤◌, ◌≡◌, refl, ◌⊎◌, inl, inr, Bool, true, ◌||◌, Option, none, some, [], arith, is_some,
  All, Option-cases, ap, ◌∙◌,
}
use go_proxmox.Prelude.Text.{Text}
use go_proxmox.Prelude.Int.{pos}
use go_proxmox.Errors.{Error, Result, ok, err}
use go_proxmox.World.{Response}
use go_proxmox.Retry.{RetryPolicy, answered, failed, is_idempotent}
use go_proxmox.Retry.RoundTrip.{
  reader, Outgoing, Wire, attempts, round_trip, rewind_body, snapshot_body, count_of,
}
use go_proxmox.Retry.RoundTrip.Loop.{
  tries, Sends, drain_tries, drain-Sends, attempts_inv, attempts_exhausted, attempts_some,
}

-- A request whose body is `t`, with `GetBody` absent or giving the same.
pub record IsBuffered (t : Text) (req : Outgoing) : Type 0 where
  pub full : req.body ≡ reader (ok t)
  pub again : (req.get_body ≡ none) ⊎ (req.get_body ≡ some (ok t))

snapshot-IsBuffered :
    (t : Text) (req : Outgoing)
    → IsBuffered t req
    → (req' : Outgoing) × (snapshot_body req ≡ ok (some t, req')) × (req'.body ≡ reader (ok t))
unfolding snapshot_body
snapshot-IsBuffered t req b = elim (b.again) [
  | inl e ↦ (record req { body = reader (ok t); get_body = some (ok t) }, ground arith, refl)
  | inr e ↦ (req, ground arith, b.full)
]

rewind-full :
    (t : Text) (n : ℕ) (r : Outgoing) → (rewind_body (some t) (n + 1) r).body ≡ reader (ok t)
unfolding rewind_body
rewind-full t n r = ground arith

rewind-start :
    (t : Text) (r : Outgoing)
    → r.body ≡ reader (ok t)
    → (rewind_body (some t) 0 r).body ≡ reader (ok t)
unfolding rewind_body
rewind-start t r full = full

module _ (w : Wire) (p : RetryPolicy) (req : Outgoing) where
  round_trip_ended :
      (e : Error) → w.ctx_err [] ≡ some e → round_trip w p req [] ≡ (some (failed e), [])
  unfolding round_trip
  round_trip_ended e h = rw (h, round_trip)

  round_trip_unread :
      (e : Error)
      → w.ctx_err [] ≡ none
      → snapshot_body req ≡ err e
      → round_trip w p req [] ≡ (some (failed e), [])
  unfolding round_trip
  round_trip_unread e h k = rw (h, k, round_trip)

  round_trip_attempts :
      (rewind : Option Text) (req' : Outgoing)
      → w.ctx_err [] ≡ none
      → snapshot_body req ≡ ok (rewind, req')
      → round_trip w p req []
        ≡ attempts w p
            (is_idempotent req.method || is_some rewind)
            rewind
            (count_of p.max_attempts)
            0
            none
            req'
            []
  unfolding round_trip
  round_trip_attempts rewind req' h k = rw (h, k, round_trip)

Result-cases {ℓ} :
    {A : Type ℓ} (r : Result A) → ((e : Error) × (r ≡ err e)) ⊎ ((a : A) × (r ≡ ok a))
Result-cases (err e) = inl (e, refl)
Result-cases (ok a) = inr (a, refl)

module _ (w : Wire) (p : RetryPolicy) (t : Text) where
  attempts-Sends :
      (idempotent : Bool) (n : ℕ) (req : Outgoing)
      → req.body ≡ reader (ok t)
      → (tries (attempts w p idempotent (some t) n 0 none req []).1 ≤ n)
        × All (Sends t) (attempts w p idempotent (some t) n 0 none req []).1
  attempts-Sends idempotent n req full =
      let (k, i) =
        attempts_inv w p idempotent (some t) (λ k h. (tries h + k ≤ n) × All (Sends t) h)
          (λ r. r.body ≡ reader (ok t)) (λ k h r q i. (omega arith, (q, i.1)))
          (λ k h o d i. (omega (arith, drain_tries o h), (tt, drain-Sends t o h i.1)))
          (rewind-full t) n 0 none req [] (rewind-start t req full) (omega arith, tt) in
      (omega (arith, i.0), i.1)

  -- Of a request with a buffered body, every attempt sends the whole body, and there are no more
  -- attempts than the policy allows.
  pub round_trip-Sends :
      (req : Outgoing)
      → IsBuffered t req
      → (tries (round_trip w p req []).1 ≤ count_of p.max_attempts)
        × All (Sends t) (round_trip w p req []).1
  round_trip-Sends req b = elim (Option-cases (w.ctx_err [])) [
    | inr (ended, e) ↦ rw (round_trip_ended w p req ended e) (omega arith, tt)
    | inl e ↦
        let (req', snapshot, full) = snapshot-IsBuffered t req b in
        rw (round_trip_attempts w p req (some t) req' e snapshot)
          (attempts-Sends _ (count_of p.max_attempts) req' full)
  ]

module _ (w : Wire) (p : RetryPolicy) (n : ℕ) (positive : p.max_attempts ≡ pos (suc n)) where
  attempts_first_some :
      (idempotent : Bool) (rewind : Option Text) (req : Outgoing)
      → is_some (attempts w p idempotent rewind (count_of p.max_attempts) 0 none req []).0 ≡ true
  attempts_first_some idempotent rewind req =
      attempts_some w p idempotent rewind (count_of p.max_attempts) 0 none req []
        (λ e. absurd (omega (arith, ap count_of positive, e)))

  -- With a policy of at least one attempt there is always an outcome: (nil, nil) is never returned.
  pub round_trip_some : (req : Outgoing) → is_some (round_trip w p req []).0 ≡ true
  round_trip_some req = elim (Option-cases (w.ctx_err [])) [
    | inr (ended, e) ↦ rw (round_trip_ended w p req ended e)
    | inl e ↦ elim (Result-cases (snapshot_body req)) [
      | inl (x, unread) ↦ rw (round_trip_unread w p req x e unread)
      | inr ((rewind, req'), snapshot) ↦
          rw (round_trip_attempts w p req rewind req' e snapshot)
            (attempts_first_some _ rewind req')
    ]
  ]

  -- Of a request with a buffered body, under a policy of at least one attempt, a response that the
  -- policy wants to retry is returned only after as many attempts as the policy allows.
  pub round_trip_exhausted :
      (t : Text) (req : Outgoing) (res : Response)
      → IsBuffered t req
      → p.condition (answered res) ≡ true
      → (round_trip w p req []).0 ≡ some (answered res)
      → tries (round_trip w p req []).1 ≡ suc n
  round_trip_exhausted t req res b again e = elim (Option-cases (w.ctx_err [])) [
    | inr (ended, x) ↦ let eq = round_trip_ended w p req ended x in cc (rw eq at e)
    | inl x ↦
        let (req', snapshot, full) = snapshot-IsBuffered t req b in
        let eq =
          round_trip_attempts w p req (some t) req' x snapshot
          ∙ ap
              (λ m.
                attempts w p (is_idempotent req.method || true) (some t) (count_of m) 0 none req'
                  [])
              positive in
        rw eq (
          omega (
            arith,
            attempts_exhausted w p (is_idempotent req.method || true) (some t) n 0 none req' [] res
                (ground arith) again (rw eq at e),
          ))
  ]
