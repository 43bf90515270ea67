-- ===== src/Tasks/Tests.antt =====
-- Runs of the laws on tasks.
use go_proxmox.Prelude.{◌≡◌, ◌↔◌, ◌⊎◌, true, Option, none, refl, subst, ap, some, [], ◌∷◌, arith}
use go_proxmox.Prelude.Text.{codes}
use go_proxmox.Errors.{Result, ok}
use go_proxmox.Json.{Json, end, member}
use go_proxmox.World.{Env}
use go_proxmox.Client.{State}
use go_proxmox.Session.Req.{get}
use go_proxmox.Client.Ends.{Ends}
use go_proxmox.Tasks.{Task, TaskLib, blank_task, new_task, task_exit_succeeded, ping, wait}
use go_proxmox.Tasks.Exit.{IsWarnings, task_exit_succeeded_iff}
use go_proxmox.Tasks.Upid.{Upid, print_upid, new_task-print_upid}
use go_proxmox.Tasks.Ping.{
  IsSettled, ping-IsSettled, IsAccepting, IsClock, IsFresh, IsTaskLib, SetsNoFlagIfAny, carried,
}
use go_proxmox.Tasks.Wait.{StopsWith, wait-Stopped}
use go_proxmox.Tasks.Sample.{
  task_env, running_task, task_lib, start_state, task_env-IsAccepting, task_env-IsClock,
  running_task-IsFresh,
}

task_exit_example :
    (task_exit_succeeded (codes "WARNINGS: 12") ≡ true)
    ↔ ((codes "WARNINGS: 12" ≡ codes "OK") ⊎ IsWarnings (codes "WARNINGS: 12"))
task_exit_example = task_exit_succeeded_iff (codes "WARNINGS: 12")

abbrev a_upid : Upid
a_upid = record {
  node = codes "pve1";
  pid = codes "0003B1A2";
  pstart = codes "01";
  start = codes "66";
  kind = codes "qmstart";
  id = codes "100";
  user = codes "root@pam";
  more = [] ∷ [];
}

new_task_example :
    new_task (print_upid a_upid)
    ≡ some (record (blank_task (print_upid a_upid)) {
      node = codes "pve1";
      kind = codes "qmstart";
      id = codes "100";
      user = codes "root@pam";
    })
new_task_example = new_task-print_upid a_upid (ground arith)

-- A server whose answers hold a stopped task, and a decoder that reads it.
abbrev status_answer : Json
status_answer = Json.object (
    member (codes "status") (Json.string (codes "stopped"))
      (member (codes "exitstatus") (Json.string (codes "OK")) end))

abbrev status_env : Env
status_env = record task_env {
  parse = λ t. ok status_answer;
  parse_object = λ t. ok ((codes "data", codes "{}") ∷ []);
}

abbrev status_lib : TaskLib
status_lib = record {
  struct_decode =
      λ v. ok (record running_task { status = codes "stopped"; exit_status = codes "OK" });
  copy = λ t u. u;
}

status_lib-IsTaskLib : IsTaskLib status_lib
status_lib-IsTaskLib = record {
  decodes = λ v t n e.
      carried IsFresh _ t
        (record {
          not_completed = refl;
          not_running = refl;
          not_failed = refl;
          not_successful = refl;
        })
        e;
  copies = λ t u h. h;
}

abbrev answered : Option (Result (Option Json) × State) → Result (Option Json)
answered none = ok none
answered (some (r, u)) = r

status_env-IsAccepting : IsAccepting status_env
status_env-IsAccepting h r res e = task_env-IsAccepting h r res e

status_env-IsClock : IsClock status_env
status_env-IsClock = record {
  sends = λ h r. task_env-IsClock.sends h r;
  sleeps = λ h d. task_env-IsClock.sleeps h d;
}

ping_example :
    Ends
      (ping status_env status_lib 1 running_task start_state)
      (λ r _. (u : Task) → r ≡ ok u → IsSettled u)
unfolding get go_proxmox.Session.Req.req go_proxmox.Session.exchange
    go_proxmox.Client.Response.handle_response go_proxmox.Prelude.Map.lookup
    go_proxmox.Prelude.Text.text_eq
ping_example =
    ping-IsSettled status_env status_env-IsAccepting status_env-IsClock status_lib
      status_lib-IsTaskLib 0 running_task start_state running_task-IsFresh
      (λ r u e. subst SetsNoFlagIfAny (ap answered e) (refl, (refl, tt)))

wait_example :
    Ends
      (wait task_env task_lib 1 4 10 25 running_task start_state)
      (StopsWith task_env task_lib 1 25)
wait_example =
    wait-Stopped task_env task_env-IsAccepting task_env-IsClock task_lib 0 10 3 25 running_task
      start_state (omega arith)
