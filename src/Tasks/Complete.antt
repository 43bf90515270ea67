-- ===== src/Tasks/Complete.antt =====
-- tasks.go: `WaitForCompleteStatus`. Its number of times is not negative.
pub mod Reported
use Prim.Native.Nat.{zero, suc}
use go_proxmox.Prelude.{
  ℕ, ◌+◌, ◌*◌, ◌^◌, Bool, true, false, Option, none, some, List, [], ◌∷◌, if◌then◌else◌, ltb,
}
use go_proxmox.Prelude.Int.{ℤ, pos, negsuc, seconds_of}
use go_proxmox.Errors.{Error, Result, ok, err}
use go_proxmox.World.{Env}
use go_proxmox.Client.{Action, ◌>>=◌, pure, try}
use go_proxmox.Tasks.{Task, TaskLib, ping, expired, sleep}

-- The step in seconds: the first of `steps`, if it is above one.
abbrev pub step_of : List ℤ → ℕ
step_of [] = 1
step_of (pos n ∷ _) = if ltb 1 n then n else 1
step_of (negsuc _ ∷ _) = 1

-- What it returns: `status`, `completed` and `err`, and the task as the pings leave it.
pub record Outcome : Type 0 where
  pub status : Bool
  pub completed : Bool
  pub error : Option Error
  pub task : Task

-- A round after its ping: a failed one breaks out of the select only.
unfoldable pub complete_or :
    (Option Error → Task → Action Outcome) → Task → Result Task → Action Outcome
complete_or next t (err e) = next (some e) t
complete_or next t (ok u) =
    if u.is_completed
    then pure (record { status = u.is_successful; completed = true; error = none; task = u })
    else next none u

module _ (env : Env) (lib : TaskLib) (calls : ℕ) where
  unfoldable pub complete_loop : ℕ → ℕ → ℕ → Option Error → Task → Action Outcome
  unfolding expired
  complete_loop zero step deadline e t = λ s. none
  complete_loop (suc rounds) step deadline e t = λ s.
      if expired env lib calls deadline s
      then pure (record { status = false; completed = false; error = e; task = t }) s
      else (try (ping env lib calls t)
            >>= complete_or
                (λ e' u. sleep env lib calls (seconds_of step) >>= λ _.
                  complete_loop rounds step deadline e' u)
                t)
          s

  unfoldable pub wait_for_complete_status : ℕ → ℕ → List ℤ → Task → Action Outcome
  unfolding complete_loop
  wait_for_complete_status rounds times steps t s =
      complete_loop rounds (step_of steps) (env.now s.past + seconds_of (step_of steps * times))
        none t s
