-- ===== src/Agent/Tests.antt =====
-- Runs of the laws on the guest agent.
use go_proxmox.Prelude.{
  ◌+◌, ◌*◌, ◌^◌, refl, inl, inr, true, none, some, [], arith, Bool-cases, if◌then◌else◌, ltb,
  ltb→lt,
}
use go_proxmox.Prelude.Text.{codes, contains, has_prefix}
use go_proxmox.Prelude.Int.{pos}
use go_proxmox.Prelude.Map.{lookup}
use go_proxmox.Errors.{ok, error_text, status_error_text}
use go_proxmox.Json.{Json}
use go_proxmox.World.{Response, Env}
use go_proxmox.Client.Ends.{Ends}
use go_proxmox.Client.Response.{handle_response}
use go_proxmox.Session.Sample.{with_password, site}
use go_proxmox.Tasks.Sample.{task_env, fine, elapsed}
use go_proxmox.Vm.{VirtualMachine}
use go_proxmox.Agent.{Timers, AgentLib, is_not_running, wait_for_agent}
use go_proxmox.Agent.Poll.{IsPrompt, IsTicker, IsFound}
use go_proxmox.Agent.Wait.{IsUpFrom, wait_for_agent-IsFound}

-- The agent is there after three seconds.
abbrev not_running : Response
not_running = record fine { code = 500; status = codes "500 QEMU guest agent is not running" }

abbrev agent_env : Env
agent_env = record task_env {
  answer = λ h r. if ltb (elapsed h) (3 * 10 ^ 9) then ok not_running else ok fine;
}

abbrev every_second : Timers
every_second = record { next = λ tick time. tick + 10 ^ 9; picks_timeout = λ h. true }

abbrev json_agent : AgentLib
json_agent = record {
  Info = Json;
  Status = Json;
  os_info = λ j. ok (some j);
  interfaces = λ j. ok [];
  interface_name = λ j. [];
  status = λ j. ok (some j);
  exited = λ j. pos 0;
}

abbrev machine : VirtualMachine
machine = record {
  config = none;
  node = codes "pve1";
  vmid = 100;
  status = codes "running";
  lock = [];
  qmp_status = [];
}

agent_env-IsPrompt : IsPrompt agent_env 0
agent_env-IsPrompt h d = (omega arith, omega arith)

every_second-IsTicker : IsTicker every_second (10 ^ 9)
every_second-IsTicker tick time h = (omega arith, omega arith)

agent_env-IsUpFrom : IsUpFrom agent_env json_agent machine site (3 * 10 ^ 9) 0
unfolding handle_response is_not_running error_text status_error_text contains has_prefix lookup
agent_env-IsUpFrom = record {
  answers = λ h r at. elim (Bool-cases (ltb (elapsed h) (3 * 10 ^ 9))) [
    | inl e ↦ rw e (refl, inr (refl, ltb→lt _ _ e))
    | inr e ↦ rw e (refl, inl tt)
  ];
  sends = λ h r. (omega arith, omega arith);
  requests = λ m u. refl;
}

wait_for_agent_example :
    Ends (wait_for_agent agent_env every_second 1 5 json_agent machine 10 with_password) IsFound
wait_for_agent_example =
    wait_for_agent-IsFound agent_env json_agent machine site (3 * 10 ^ 9) 0 agent_env-IsUpFrom
      every_second 0 3 0 agent_env-IsPrompt every_second-IsTicker 10 with_password (refl, refl)
      (omega arith) (omega arith) (omega arith)
