-- ===== src/Agent/Exec.antt =====
-- virtual_machine.go: the guest agent's commands, the host's name, its network and its passwords.
use go_proxmox.Prelude.{
  ℕ, ◌^◌, true, false, not, Option, none, some, List, [], ◌∷◌, ◌++◌, if◌then◌else◌,
}
use go_proxmox.Prelude.Text.{Text, codes, text_eq}
use go_proxmox.Prelude.Int.{ℤ, pos, eq_ℤ}
use go_proxmox.Prelude.Map.{lookup}
use go_proxmox.Errors.{message, Result, ok, err}
use go_proxmox.Json.{Json, Members, as_map}
use go_proxmox.World.{Env}
use go_proxmox.Client.{Action, ◌>>=◌, pure, lift}
use go_proxmox.Session.Req.{get, post}
use go_proxmox.Vm.{VirtualMachine}
use go_proxmox.Agent.{Timers, AgentLib, agent_path, result_of, poll}

module _ (env : Env) (timers : Timers) (calls rounds : ℕ) (lib : AgentLib)
    (v : VirtualMachine) where
  -- The process id in the answer to `AgentExec`; a number with a fraction is outside the model.
  abbrev pid_in : Option Json → Result ℤ
  pid_in none = err (message (codes "no pid returned from agent exec command"))
  pid_in (some Json.null) = err (message (codes "no pid returned from agent exec command"))
  pid_in (some (Json.number n)) = ok n
  pid_in (some v) =
      err (message (codes "agent exec command returned a non-numeric pid: " ++ env.render v))

  abbrev pid_of : Option Json → Result ℤ
  pid_of none = pid_in none
  pid_of (some j) = elim (as_map j) [
    | err e ↦ err e
    | ok tmpdata ↦ pid_in (lookup (codes "pid") tmpdata)
  ]

  -- `AgentExec`, with its command as JSON.
  unfoldable pub agent_exec : Json → Text → Action ℤ
  agent_exec command input_data =
      post env calls (agent_path v (codes "exec"))
        (some (
          Json.object (
            Members.member (codes "command") command
              (Members.member (codes "input-data") (Json.string input_data) Members.end))))
        true
      >>= λ a. lift (pid_of a)

  abbrev no_data : Text → Result (Option (lib.Status)) → Result (lib.Status)
  no_data pid (err e) = err e
  no_data pid (ok none) =
      err (message (codes "agent exec-status for pid " ++ (pid ++ codes " returned no data")))
  no_data pid (ok (some s)) = ok s

  -- `AgentExecStatus`, of a process id in decimal.
  unfoldable pub agent_exec_status : Text → Action (lib.Status)
  agent_exec_status pid =
      get env calls (agent_path v (codes "exec-status?pid=" ++ pid)) true >>= λ a.
      lift (no_data pid (result_of lib.status a))

  abbrev unless_running : lib.Status → Action (Option (lib.Status))
  unless_running s = pure (if not (eq_ℤ (lib.exited s) (pos 0)) then some s else none)

  -- `WaitForAgentExecExit`, with the default interval of 100 milliseconds.
  unfoldable pub wait_for_agent_exec_exit : Text → ℕ → Action (lib.Status)
  unfolding agent_exec_status poll
  wait_for_agent_exec_exit pid seconds =
      poll env timers (agent_exec_status pid >>= unless_running) rounds (10 ^ 8) seconds

  -- The loop of `AgentGetNetworkIFaces`.
  abbrev but_loopback : List (lib.Info) → List (lib.Info)
  but_loopback [] = []
  but_loopback (i ∷ is) =
      if text_eq (lib.interface_name i) (codes "lo") then but_loopback is else i ∷ but_loopback is

  abbrev interfaces_in : Option Json → Result (List (lib.Info))
  interfaces_in none = ok []
  interfaces_in (some j) = lib.interfaces j

  unfoldable pub agent_get_network_ifaces : Action (List (lib.Info))
  agent_get_network_ifaces =
      get env calls (agent_path v (codes "network-get-interfaces")) true >>= λ a.
      lift (interfaces_in a) >>= λ is. pure (but_loopback is)

  -- `AgentSetUserPassword`.
  unfoldable pub agent_set_user_password : Text → Text → Action (Option Json)
  agent_set_user_password password username =
      post env calls (agent_path v (codes "set-user-password"))
        (some (
          Json.object (
            Members.member (codes "password") (Json.string password)
              (Members.member (codes "username") (Json.string username) Members.end))))
        false
