-- ===== src/Tasks/Wait.antt =====
-- Waiting for a task to end.
use Prim.Native.Nat.{zero, suc}
use go_proxmox.Prelude.{
  ℕ, ◌+◌, ◌*◌, ◌≤◌, ◌<◌, ◌≡◌, refl, ◌⊎◌, inl, inr, true, Option, none, some, arith, Bool-cases, leb,
  leb→le, ◌≢◌,
}
use go_proxmox.Prelude.Text.Laws.{text-cases}
use go_proxmox.Prelude.Text.{codes}
use go_proxmox.Errors.{Error, sentinel, timed_out, Result, ok, err}
use go_proxmox.World.{Env}
use go_proxmox.Client.{State, Action}
use go_proxmox.Client.Ends.{Ends, Ends-try, Ends-eq, Ends-mono}
use go_proxmox.Tasks.{Task, TaskLib, ping, expired, wait_loop, waited, wait_from, wait}
use go_proxmox.Tasks.Ping.{IsAccepting, IsClock, Later, ping-ends}

module _ (env : Env) (lib : TaskLib) (calls : ℕ) where
  -- Why a wait may stop: the task runs no more, the time is over, or a ping failed.
  abbrev pub Stopped : ℕ → Option Error → Task → State → Type 0
  Stopped deadline none t s = t.status ≢ codes "running"
  Stopped deadline (some e) t s =
      ((e ≡ sentinel timed_out) × (deadline ≤ env.now s.past))
      ⊎ ((u : Task) × (s' : State) × (ping env lib calls u s' ≡ some (err e, s)))

  abbrev pub StopsWith : ℕ → Result (Option Error × Task) → State → Type 0
  StopsWith deadline (ok (e, t)) s = Stopped deadline e t s
  StopsWith deadline (err _) s = ⊥

module _ (env : Env) (accepting : IsAccepting env) (clock : IsClock env) (lib : TaskLib)
    (f interval : ℕ) where
  abbrev Next : ℕ → (Task → Action (Option Error × Task)) → ℕ → Type 0
  Next deadline next low =
      (t : Task) (s : State)
      → low ≤ env.now s.past
      → Ends (next t s) (StopsWith env lib (suc f) deadline)

  waited-Stopped :
      (deadline : ℕ) (next : Task → Action (Option Error × Task)) (t : Task) (s : State)
      (r : Result Task) (u : State)
      → Next deadline next (env.now s.past)
      → Later env accepting clock s r u × (ping env lib (suc f) t s ≡ some (r, u))
      → Ends (waited env lib (suc f) next t r u) (StopsWith env lib (suc f) deadline)
  unfolding waited
  waited-Stopped deadline next t s (err e) u go (late, e') = inr (t, s, e')
  waited-Stopped deadline next t s (ok v) u go (late, _) =
      elim (text-cases v.status (codes "running")) [
        | inl (e, _) ↦ rw e (go v u late)
        | inr (e, n) ↦ rw e n
      ]

  wait_loop-Stopped :
      (rounds deadline : ℕ) (t : Task) (s : State)
      → deadline < env.now s.past + rounds * interval
      → Ends
          (wait_loop env lib (suc f) (suc rounds) interval deadline t s)
          (StopsWith env lib (suc f) deadline)
  unfolding wait_loop expired
  wait_loop-Stopped zero deadline t s h =
      let over : leb deadline (env.now s.past) ≡ true = ground arith in
      rw over (inl (refl, leb→le _ _ over))
  wait_loop-Stopped (suc k) deadline t s h = elim (Bool-cases (leb deadline (env.now s.past))) [
    | inl e ↦ rw e (inl (refl, leb→le _ _ e))
    | inr e ↦ rw e (
        Ends-try (ping env lib (suc f) t) _ s
          (λ r u. Later env accepting clock s r u × (ping env lib (suc f) t s ≡ some (r, u)))
          (StopsWith env lib (suc f) deadline)
          (Ends-eq _ (Later env accepting clock s) (ping-ends env accepting clock lib f t s))
          (λ r u q.
            waited-Stopped deadline _ t s r u
              (λ v w low.
                wait_loop-Stopped k deadline v _ (omega (arith, clock.sleeps w.past interval)))
              q))
  ]

  Stopped-earlier :
      (a b : ℕ) (r : Result (Option Error × Task)) (s : State)
      → a ≤ b
      → StopsWith env lib (suc f) b r s
      → StopsWith env lib (suc f) a r s
  Stopped-earlier a b (ok (none, t)) s h q = q
  Stopped-earlier a b (ok (some e, t)) s h (inl (e', late)) = inl (e', omega arith)
  Stopped-earlier a b (ok (some e, t)) s h (inr q) = inr q
  Stopped-earlier a b (err _) s h q = q

  wait_from-Stopped :
      (rounds max : ℕ) (t : Task) (s : State)
      → max < rounds * interval
      → (r : Result Task) (u : State)
      → Later env accepting clock s r u × (ping env lib (suc f) t s ≡ some (r, u))
      → Ends
          (wait_from env lib (suc f) (suc rounds) interval max t r u)
          (StopsWith env lib (suc f) (env.now s.past + max))
  unfolding wait_from
  wait_from-Stopped rounds max t s h (err e) u (later, e') = inr (t, s, e')
  wait_from-Stopped rounds max t s h (ok v) u (later, _) =
      Ends-mono _ (StopsWith env lib (suc f) (env.now u.past + max))
        (StopsWith env lib (suc f) (env.now s.past + max))
        (wait_loop-Stopped rounds (env.now u.past + max) v u (omega arith))
        (λ r w q. Stopped-earlier _ _ r w (omega arith) q)

  -- Where no request is refused and the clock and the timers run, `Wait` stops if it may make a
  -- round more than fit in the time it is given: without an error, and then the task is not
  -- running; with the time-out, and then that time is over since the first ping; or with the
  -- error of a ping.
  pub wait-Stopped :
      (rounds max : ℕ) (t : Task) (s : State)
      → max < rounds * interval
      → Ends
          (wait env lib (suc f) (suc rounds) interval max t s)
          (StopsWith env lib (suc f) (env.now s.past + max))
  unfolding wait
  wait-Stopped rounds max t s h =
      Ends-try (ping env lib (suc f) t) _ s
        (λ r u. Later env accepting clock s r u × (ping env lib (suc f) t s ≡ some (r, u)))
        (StopsWith env lib (suc f) (env.now s.past + max))
        (Ends-eq _ (Later env accepting clock s) (ping-ends env accepting clock lib f t s))
        (λ r u q. wait_from-Stopped rounds max t s h r u q)
