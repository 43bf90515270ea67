-- ===== src/Agent/Poll.antt =====
-- When a wait ends.
use Prim.Native.Nat.{zero, suc}
use go_proxmox.Prelude.{
  ℕ, ◌+◌, ◌-◌, ◌*◌, ◌^◌, ◌≤◌, ◌<◌, ◌≡◌, refl, inl, inr, Bool, true, false, Option, none, some, ◌∷◌,
  arith, Bool-cases, leb, leb→le,
}
use go_proxmox.Prelude.Int.{pos, two63, seconds_of, seconds_of_small}
use go_proxmox.Errors.{Result, ok, err}
use go_proxmox.World.{History, slept, Env}
use go_proxmox.Client.{State, Action, ◌>>=◌}
use go_proxmox.Client.Ends.{Ends, Ends-bind}
use go_proxmox.Agent.{Timers, select, go_on, attempted, poll_loop, poll}

-- A sleep takes its time, and at most `late` more.
abbrev pub IsPrompt : Env → ℕ → Type 0
IsPrompt env late =
    (h : History) (d : ℕ)
    → (env.now h + d ≤ env.now (slept (pos d) ∷ h))
      × (env.now (slept (pos d) ∷ h) ≤ env.now h + d + late)

-- A tick that is received at its time or after it is followed by one that is at least an interval
-- after it, and at most an interval after its receipt.
abbrev pub IsTicker : Timers → ℕ → Type 0
IsTicker timers interval =
    (tick time : ℕ)
    → tick ≤ time
    → (tick + interval ≤ timers.next tick time) × (timers.next tick time ≤ time + interval)

-- What an attempt does for a wait that is to succeed: from the time `up` on it gives a value, and
-- until then it gives one or asks for another round; `IsGood` is kept, and `slow` is its time.
abbrev pub Tried :
    Env → {A : Type 0} → (State → Type 0) → ℕ → ℕ → State → Result (Option A) → State → Type 0
Tried env IsGood up slow s (err _) t = ⊥
Tried env IsGood up slow s (ok (some a)) t = Unit
Tried env IsGood up slow s (ok none) t =
    IsGood t
    × (env.now s.past < up)
    × (env.now s.past ≤ env.now t.past)
    × (env.now t.past ≤ env.now s.past + slow)

abbrev pub IsFound : {A : Type 0} → Result A → State → Type 0
IsFound (ok _) t = Unit
IsFound (err _) t = ⊥

module _ (env : Env) (timers : Timers) (interval late : ℕ) (prompt : IsPrompt env late) where
  -- Before the deadline the tick is received.
  abbrev Ticked : ℕ → State → Result Bool → State → Type 0
  Ticked tick s r t =
      (r ≡ ok false)
      × (t.client ≡ s.client)
      × (tick ≤ env.now t.past)
      × (env.now s.past ≤ env.now t.past)

  select-Ticked :
      (deadline tick : ℕ) (s : State)
      → env.now s.past < deadline
      → tick + late < deadline
      → Ends (select env timers deadline tick s) (Ticked tick s)
  unfolding select
  select-Ticked deadline tick s early soon =
      let awake : leb deadline (env.now s.past) ≡ false = ground (arith, early) in
      elim (Bool-cases (leb tick (env.now s.past))) [
        | inl e ↦ rw (awake, e) (refl, refl, leb→le _ _ e, omega arith)
        | inr e ↦
            let first : leb deadline tick ≡ false = ground (arith, soon) in
            let (from, to) = prompt s.past (tick - env.now s.past) in
            let before : tick ≤ env.now s.past + (tick - env.now s.past) = ground (arith, e) in
            let sum : env.now s.past + (tick - env.now s.past) ≤ tick = ground (arith, e) in
            let still : leb deadline (env.now (slept (pos (tick - env.now s.past)) ∷ s.past))
                ≡ false =
              ground (arith, to, soon, sum) in
            rw (awake, e)
              (rw first (rw still (refl, refl, omega (arith, before, from), omega (arith, from))))
      ]

  module _ (ticker : IsTicker timers interval) {A : Type 0} (attempt : Action (Option A))
      (IsGood : State → Type 0) (kept : (s t : State) → t.client ≡ s.client → IsGood s → IsGood t)
      (up slow : ℕ)
      (tries : (s : State) → IsGood s → Ends (attempt s) (Tried env IsGood up slow s)) where
    -- The rounds that are left are enough.
    abbrev pub Enough : ℕ → ℕ → State → Type 0
    Enough zero tick s = up ≤ env.now s.past
    Enough (suc k) tick s = up ≤ tick + k * interval

    Enough-next :
        (k tick : ℕ) (s u : State)
        → tick ≤ env.now u.past
        → tick + interval ≤ timers.next tick (env.now u.past)
        → Enough (suc k) tick s
        → Enough k (timers.next tick (env.now u.past)) u
    Enough-next zero tick s u late_enough from enough = omega arith
    Enough-next (suc k) tick s u late_enough from enough = omega arith

    Ticked-finds :
        (loop : ℕ → Action A) (tick : ℕ) (t : State) (b : Bool) (u : State)
        → Ticked tick t (ok b) u
        → Ends (loop (timers.next tick (env.now u.past)) u) IsFound
        → Ends (go_on env timers attempt loop tick b u) IsFound
    Ticked-finds loop tick t true u q h = cc
    Ticked-finds loop tick t false u q h = h

    another_round :
        (loop : ℕ → Action A) (k deadline tick : ℕ) (s t : State)
        → Tried env {A = A} IsGood up slow s (ok none) t
        → up + interval + late + slow < deadline
        → tick ≤ env.now s.past + interval
        → Enough (suc k) tick s
        → ((tick' : ℕ) (u : State)
            → IsGood u
            → tick' ≤ env.now u.past + interval
            → Enough k tick' u
            → Ends (loop tick' u) IsFound)
        → Ends ((select env timers deadline tick >>= go_on env timers attempt loop tick) t) IsFound
    another_round loop k deadline tick s t (good, early, _, soon) time near enough again =
        Ends-bind (select env timers deadline tick) _ t (Ticked tick t) IsFound
          (select-Ticked deadline tick t (omega arith) (omega arith))
          (λ b u p.
            let (from, to) = ticker tick (env.now u.past) p.2 in
            Ticked-finds loop tick t b u p
              (again _ u (kept t u p.1 good) to (Enough-next k tick s u p.2 from enough)))
          (λ e u p. cc)

    Tried-once :
        (loop : ℕ → Action A) (deadline tick : ℕ) (s : State) (a : Option A) (t : State)
        → Tried env IsGood up slow s (ok a) t
        → (Tried env {A = A} IsGood up slow s (ok none) t
            → Ends
                ((select env timers deadline tick >>= go_on env timers attempt loop tick) t)
                IsFound)
        → Ends
            (attempted env timers attempt
              (select env timers deadline tick)
              (go_on env timers attempt loop tick)
              a
              t)
            IsFound
    Tried-once loop deadline tick s (some a) t q h = tt
    Tried-once loop deadline tick s none t q h = h q

    pub poll_loop-finds :
        (k deadline tick : ℕ) (s : State)
        → IsGood s
        → up + interval + late + slow < deadline
        → tick ≤ env.now s.past + interval
        → Enough k tick s
        → Ends (poll_loop env timers attempt (suc k) deadline tick s) IsFound
    unfolding poll_loop
    poll_loop-finds zero deadline tick s good time near enough =
        Ends-bind attempt _ s (Tried env IsGood up slow s) IsFound (tries s good)
          (λ a t q.
            Tried-once (λ x u. none) deadline tick s a t q
              (λ p. absurd (omega (arith, p.1, enough))))
          (λ e t q. q)
    poll_loop-finds (suc k) deadline tick s good time near enough =
        Ends-bind attempt _ s (Tried env IsGood up slow s) IsFound (tries s good)
          (λ a t q.
            Tried-once (poll_loop env timers attempt (suc k) deadline) deadline tick s a t q (λ p.
              another_round _ k deadline tick s t p time near enough
                (λ tick' u g n e. poll_loop-finds k deadline tick' u g time n e)))
          (λ e t q. q)

    pub poll-finds :
        (k seconds : ℕ) (s : State)
        → IsGood s
        → seconds * 10 ^ 9 < two63
        → up + interval + late + slow < env.now s.past + seconds * 10 ^ 9
        → up ≤ env.now s.past + interval + k * interval
        → Ends (poll env timers attempt (suc (suc k)) interval seconds s) IsFound
    unfolding poll
    poll-finds k seconds s good bound time enough =
        poll_loop-finds (suc k) (env.now s.past + seconds_of seconds) (env.now s.past + interval) s
          good (omega (arith, seconds_of_small seconds bound)) (omega arith) enough
