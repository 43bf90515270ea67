-- ===== src/Vm/Power.antt =====
-- The calls that start and stop a virtual machine, and the states that it reports.
use go_proxmox.Prelude.{
  [], ◌∷◌, ap, ◌∙◌, ℕ, ◌≡◌, refl, Bool, true, false, not, ◌&&◌, ◌||◌, Option, none, some, ◌++◌,
  arith, inl, inr,
}
use go_proxmox.Prelude.Text.{Text, codes, is_empty, text_eq}
use go_proxmox.Prelude.Text.Laws.{text-cases}
use go_proxmox.Json.{Json, Members}
use go_proxmox.World.{Env}
use go_proxmox.Client.{Action, ◌>>=◌, lift}
use go_proxmox.Session.Req.{post}
use go_proxmox.Tasks.{Task}
use go_proxmox.Vm.{VirtualMachine, vm_path, task_of}

module _ (env : Env) (calls : ℕ) (v : VirtualMachine) where
  unfoldable pub status_call : Text → Option Json → Action (Option Task)
  status_call name body =
      post env calls (vm_path v ++ (codes "/status/" ++ name)) body true >>= λ a. lift (task_of a)

  -- `Start`, `Reset`, `Shutdown`, `Stop`, `Pause`, `Hibernate`, `Resume` and `Reboot`.
  unfoldable pub start : Action (Option Task)
  start = status_call (codes "start") none

  unfoldable pub reset : Action (Option Task)
  reset = status_call (codes "reset") none

  unfoldable pub shutdown : Action (Option Task)
  shutdown = status_call (codes "shutdown") none

  unfoldable pub stop : Action (Option Task)
  stop = status_call (codes "stop") none

  unfoldable pub pause : Action (Option Task)
  pause = status_call (codes "suspend") none

  unfoldable pub hibernate : Action (Option Task)
  hibernate =
      status_call (codes "suspend")
        (some (Json.object (Members.member (codes "todisk") (Json.string (codes "1")) Members.end)))

  unfoldable pub resume : Action (Option Task)
  resume = status_call (codes "resume") none

  unfoldable pub reboot : Action (Option Task)
  reboot = status_call (codes "reboot") none

-- `IsRunning`, `IsStopped`, `IsPaused` and `IsHibernated`.
unfoldable pub is_running : VirtualMachine → Bool
is_running v =
    text_eq v.status (codes "running")
    && (is_empty v.qmp_status || text_eq v.qmp_status (codes "running"))

unfoldable pub is_stopped : VirtualMachine → Bool
is_stopped v = text_eq v.status (codes "stopped") && not (text_eq v.lock (codes "suspended"))

unfoldable pub is_paused : VirtualMachine → Bool
is_paused v = text_eq v.status (codes "running") && text_eq v.qmp_status (codes "paused")

unfoldable pub is_hibernated : VirtualMachine → Bool
is_hibernated v = text_eq v.status (codes "stopped") && text_eq v.lock (codes "suspended")

not_both : (t a b : Text) → text_eq a b ≡ false → (text_eq t a && text_eq t b) ≡ false
not_both t a b h = elim (text-cases t a) [
  | inl (e, s) ↦ rw e (ap (λ x. text_eq x b) s ∙ h)
  | inr (e, n) ↦ rw e
]

not_empty_and : (t : Text) → (is_empty t && text_eq t (codes "paused")) ≡ false
unfolding text_eq
not_empty_and [] = refl
not_empty_and (c ∷ s) = refl

running_or_stopped :
    (t : Text) → (text_eq t (codes "running") && text_eq t (codes "stopped")) ≡ false
unfolding text_eq
running_or_stopped t = not_both t (codes "running") (codes "stopped") refl

running_or_paused : (t : Text) → (text_eq t (codes "running") && text_eq t (codes "paused")) ≡ false
unfolding text_eq
running_or_paused t = not_both t (codes "running") (codes "paused") refl

-- Of the four states at most one holds.
abbrev pub at_most_one : Bool → Bool → Bool → Bool → Bool
at_most_one a b c d =
    not (a && b)
    && (not (a && c) && (not (a && d) && (not (b && c) && (not (b && d) && not (c && d)))))

-- No two of the four states hold of a machine together. A machine whose status is "stopped" is
-- stopped or hibernated; and one whose status is "running" is running or paused if its QMP status
-- is empty, "running" or "paused", and only then.
pub power_states :
    (v : VirtualMachine)
    → (at_most_one (is_running v) (is_stopped v) (is_paused v) (is_hibernated v) ≡ true)
      × ((is_stopped v || is_hibernated v) ≡ text_eq v.status (codes "stopped"))
      × ((is_running v || is_paused v) ≡ (
          text_eq v.status (codes "running")
          && (is_empty v.qmp_status
              || (text_eq v.qmp_status (codes "running")
                  || text_eq v.qmp_status (codes "paused")))))
unfolding is_running is_stopped is_paused is_hibernated
power_states v =
    let a = running_or_stopped v.status in
    let b = running_or_paused v.qmp_status in
    let c = not_empty_and v.qmp_status in
    (ground (arith, a, b, c), ground (arith, a, b, c), ground (arith, a, b, c))
