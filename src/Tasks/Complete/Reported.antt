-- ===== src/Tasks/Complete/Reported.antt =====
-- What `WaitForCompleteStatus` returns, and that it returns.
use go_proxmox.Prelude.{ℕ, ◌≤◌, ◌≡◌, ◌⊎◌, true, false, Option, none, some}
use go_proxmox.Errors.{Error, Result, ok, err}
use go_proxmox.World.{Env}
use go_proxmox.Client.{State}
use go_proxmox.Client.Ends.{Ends}
use go_proxmox.Tasks.{Task, TaskLib, ping}
use go_proxmox.Tasks.Complete.{Outcome}

module _ (env : Env) (lib : TaskLib) (calls : ℕ) (first : Task) where
  -- The task is the last that a ping has given, and so is the error where that ping failed.
  abbrev pub Seen : Option Error → Task → Type 0
  Seen none t = (t ≡ first) ⊎ (t.is_completed ≡ false)
  Seen (some e) t =
      (u : Task) × (s : State) × (s' : State) × (ping env lib calls u s ≡ some (err e, s'))

  -- Either the task is completed, and its success is told; or the time is over, and neither.
  abbrev pub Tells : ℕ → Outcome → State → Type 0
  Tells deadline o s =
      ((o.completed ≡ true)
        × (o.status ≡ o.task.is_successful)
        × (o.error ≡ none)
        × (o.task.is_completed ≡ true))
      ⊎ ((o.completed ≡ false)
          × (o.status ≡ false)
          × (deadline ≤ env.now s.past)
          × Seen (o.error) (o.task))

  abbrev pub Reports : ℕ → Result Outcome → State → Type 0
  Reports deadline (ok o) s = Tells deadline o s
  Reports deadline (err _) s = ⊥
