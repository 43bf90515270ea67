-- ===== src/Agent.antt =====
-- virtual_machine.go: the guest agent, and the waits for it and for a command that it runs.
pub mod Poll
pub mod Wait
pub mod Exec
pub mod Commands
mod Tests
use Prim.Native.Nat.{zero, suc}
use go_proxmox.Prelude.{
  ℕ, ◌+◌, ◌-◌, ◌*◌, ◌^◌, Bool, true, false, not, ◌||◌, Option, none, some, List, [], ◌∷◌, ◌++◌,
  if◌then◌else◌, leb,
}
use go_proxmox.Prelude.Text.{Text, codes, contains, text_eq}
use go_proxmox.Prelude.Int.{ℤ, pos, eq_ℤ, seconds_of}
use go_proxmox.Errors.{
  Error, sentinel, timed_out, message, error_text, is_not_authorized, Result, ok, err,
}
use go_proxmox.Json.{Json, Members}
use go_proxmox.World.{History, slept, Env}
use go_proxmox.Client.{State, Action, ◌>>=◌, pure, raise, lift, try}
use go_proxmox.Session.Req.{get, post}
use go_proxmox.Vm.{VirtualMachine, vm_path}

abbrev pub min : ℕ → ℕ → ℕ
min a b = if leb a b then a else b

-- A ticker and Go's `select`: `next p t` is the tick that follows the tick `p` when that is received
-- at the time `t`; and where the time-out and a tick are both there, `picks_timeout` is the choice.
pub record Timers : Type 0 where
  pub next : ℕ → ℕ → ℕ
  pub picks_timeout : History → Bool

module _ (env : Env) (timers : Timers) where
  -- Whether the time-out is received, where it or the tick is there.
  abbrev pub receives_timeout : ℕ → ℕ → History → Bool
  receives_timeout deadline tick h =
      if leb deadline (env.now h)
      then (if leb tick (env.now h) then timers.picks_timeout h else true)
      else false

  -- `select { case <-timeout: … case <-ticker.C: … }`: it waits until one of them is there.
  unfoldable pub select : ℕ → ℕ → Action Bool
  select deadline tick s =
      if leb deadline (env.now s.past) || leb tick (env.now s.past)
      then some (ok (receives_timeout deadline tick s.past), s)
      else let h = slept (pos (min deadline tick - env.now s.past)) ∷ s.past in
        some (ok (receives_timeout deadline tick h), record s { past = h })

  module _ {A : Type 0} (attempt : Action (Option A)) where
    abbrev pub go_on : (ℕ → Action A) → ℕ → Bool → Action A
    go_on loop tick true = raise (sentinel timed_out)
    go_on loop tick false = λ s. loop (timers.next tick (env.now s.past)) s

    abbrev pub attempted : Action Bool → (Bool → Action A) → Option A → Action A
    attempted selected rest (some a) = pure a
    attempted selected rest none = selected >>= rest

    -- The loop of `WaitForAgent` and of `WaitForAgentExecExit`, over what each round tries.
    unfoldable pub poll_loop : ℕ → ℕ → ℕ → Action A
    unfolding select
    poll_loop zero deadline tick = λ s. none
    poll_loop (suc rounds) deadline tick =
        attempt >>= attempted (select deadline tick) (go_on (poll_loop rounds deadline) tick)

    -- The timer and the ticker start together.
    unfoldable pub poll : ℕ → ℕ → ℕ → Action A
    unfolding poll_loop
    poll rounds interval seconds s =
        poll_loop rounds (env.now s.past + seconds_of seconds) (env.now s.past + interval) s

-- encoding/json's reading of the agent's answers, whose result may be nil, and of a command's
-- status with its `Exited`.
pub record AgentLib : Type 1 where
  pub Info : Type 0
  pub Status : Type 0
  pub os_info : Json → Result (Option Info)
  pub interfaces : Json → Result (List Info)
  pub interface_name : Info → Text
  pub status : Json → Result (Option Status)
  pub exited : Status → ℤ

abbrev pub agent_path : VirtualMachine → Text → Text
agent_path v name = vm_path v ++ (codes "/agent/" ++ name)

abbrev pub result_of : {A : Type 0} → (Json → Result (Option A)) → Option Json → Result (Option A)
result_of decode none = ok none
result_of decode (some j) = decode j

abbrev pub or_empty : {A : Type 0} → Result (Option A) → Result A
or_empty (ok none) = err (message (codes "result is empty"))
or_empty (ok (some a)) = ok a
or_empty (err e) = err e

-- What `AgentOsInfo` makes of the answer.
abbrev pub os_info_of : (lib : AgentLib) → Result (Option Json) → Result (lib.Info)
os_info_of lib (err e) = err e
os_info_of lib (ok a) = or_empty (result_of lib.os_info a)

-- The message by which a round of `WaitForAgent` goes on.
unfoldable pub is_not_running : Env → Error → Bool
is_not_running env e =
    contains (error_text env.status_text env.quote e) (codes "500 QEMU guest agent is not running")

module _ (env : Env) (timers : Timers) (calls rounds : ℕ) (lib : AgentLib)
    (v : VirtualMachine) where
  -- `AgentOsInfo`.
  unfoldable pub agent_os_info : Action (lib.Info)
  agent_os_info =
      get env calls (agent_path v (codes "get-osinfo")) true >>= λ a. lift (os_info_of lib (ok a))

  abbrev pub asked : Result (lib.Info) → Action (Option (Unit {0}))
  asked (ok _) = pure (some tt)
  asked (err e) = if not (is_not_running env e) then raise e else pure none

  -- `WaitForAgent`, with the default interval of a second.
  unfoldable pub wait_for_agent : ℕ → Action (Unit {0})
  unfolding poll agent_os_info
  wait_for_agent seconds = poll env timers (try agent_os_info >>= asked) rounds (10 ^ 9) seconds
