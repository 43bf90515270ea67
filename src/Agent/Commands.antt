-- ===== src/Agent/Commands.antt =====
-- virtual_machine_agent.go: the guest agent's commands. Most answers are in a struct with a field
-- `Result`, whose types have the names of Go.
use go_proxmox.Prelude.{ℕ, false, Option, none, some, [], ◌∷◌, ◌++◌}
use go_proxmox.Prelude.Text.{Text, codes}
use go_proxmox.Prelude.Int.{pos}
use go_proxmox.Json.{Json, Members}
use go_proxmox.World.{Env}
use go_proxmox.Client.{Action, ◌>>=◌, pure}
use go_proxmox.Session.Req.{post}
use go_proxmox.Vm.{VirtualMachine, vm_path}
use go_proxmox.Agent.{agent_path}
use go_proxmox.Containers.Calls.{Values, one, two, read, post_read}

-- The fields `Result` and `Zone` of a struct, and encoding/base64's text of bytes.
pub record Replies (lib : Values) : Type 0 where
  pub result : lib.Value → lib.Value
  pub zone : lib.Value → lib.Value
  pub base64 : Text → Text

module _ (env : Env) (calls : ℕ) (lib : Values) (replies : Replies lib) (v : VirtualMachine) where
  -- A GET and a POST whose answer is in a struct with `Result`.
  abbrev get_result : Text → Text → Action lib.Value
  get_result name type =
      read env calls lib (agent_path v name) type >>= λ resp. pure (replies.result resp)

  abbrev post_result : Text → Text → Action lib.Value
  post_result name type =
      post_read env calls lib (agent_path v name) none type >>= λ resp. pure (replies.result resp)

  -- A POST whose answer is not read.
  abbrev post_command : Text → Action (Option Json)
  post_command name = post env calls (agent_path v name) none false

  unfoldable pub agent_command_index : Action lib.Value
  unfolding read post_read
  agent_command_index =
      read env calls lib (vm_path v ++ codes "/agent") (codes "[]*AgentCommandIndexEntry")

  unfoldable pub agent_command : Text → Action lib.Value
  unfolding read post_read
  agent_command command =
      post_read env calls lib (vm_path v ++ codes "/agent")
        (some (Json.object (one (codes "command") (Json.string command))))
        (codes "struct{Result map[string]interface{}}")
      >>= λ resp. pure (replies.result resp)

  unfoldable pub agent_ping : Action (Option Json)
  unfolding read post_read
  agent_ping = post_command (codes "ping")

  unfoldable pub agent_get_time : Action lib.Value
  unfolding read post_read
  agent_get_time = get_result (codes "get-time") (codes "struct{Result AgentTime}")

  unfoldable pub agent_get_timezone : Action lib.Value
  unfolding read post_read
  agent_get_timezone =
      get_result (codes "get-timezone") (codes "struct{Result struct{Zone string; Offset int}}")
      >>= λ r. pure (replies.zone r)

  unfoldable pub agent_get_users : Action lib.Value
  unfolding read post_read
  agent_get_users = get_result (codes "get-users") (codes "struct{Result []*AgentUser}")

  unfoldable pub agent_get_vcpus : Action lib.Value
  unfolding read post_read
  agent_get_vcpus = get_result (codes "get-vcpus") (codes "struct{Result []*AgentVCPU}")

  unfoldable pub agent_get_fs_info : Action lib.Value
  unfolding read post_read
  agent_get_fs_info = get_result (codes "get-fsinfo") (codes "struct{Result []*AgentFsInfo}")

  unfoldable pub agent_get_memory_blocks : Action lib.Value
  unfolding read post_read
  agent_get_memory_blocks =
      get_result (codes "get-memory-blocks") (codes "struct{Result []*AgentMemoryBlock}")

  unfoldable pub agent_get_memory_block_info : Action lib.Value
  unfolding read post_read
  agent_get_memory_block_info =
      get_result (codes "get-memory-block-info") (codes "struct{Result *AgentMemoryBlockInfo}")

  unfoldable pub agent_get_info : Action lib.Value
  unfolding read post_read
  agent_get_info = get_result (codes "info") (codes "struct{Result *AgentInfo}")

  unfoldable pub agent_fsfreeze_freeze : Action lib.Value
  unfolding read post_read
  agent_fsfreeze_freeze = post_result (codes "fsfreeze-freeze") (codes "struct{Result int}")

  unfoldable pub agent_fsfreeze_thaw : Action lib.Value
  unfolding read post_read
  agent_fsfreeze_thaw = post_result (codes "fsfreeze-thaw") (codes "struct{Result int}")

  unfoldable pub agent_fsfreeze_status : Action lib.Value
  unfolding read post_read
  agent_fsfreeze_status =
      post_result (codes "fsfreeze-status") (codes "struct{Result AgentFsfreezeStatus}")

  unfoldable pub agent_fstrim : Action lib.Value
  unfolding read post_read
  agent_fstrim = post_result (codes "fstrim") (codes "struct{Result map[string]interface{}}")

  unfoldable pub agent_shutdown : Action (Option Json)
  unfolding read post_read
  agent_shutdown = post_command (codes "shutdown")

  unfoldable pub agent_suspend_disk : Action (Option Json)
  unfolding read post_read
  agent_suspend_disk = post_command (codes "suspend-disk")

  unfoldable pub agent_suspend_hybrid : Action (Option Json)
  unfolding read post_read
  agent_suspend_hybrid = post_command (codes "suspend-hybrid")

  unfoldable pub agent_suspend_ram : Action (Option Json)
  unfolding read post_read
  agent_suspend_ram = post_command (codes "suspend-ram")

  unfoldable pub agent_file_read : Text → Action lib.Value
  unfolding read post_read
  agent_file_read file =
      read env calls lib
        (agent_path v (codes "file-read?" ++ lib.query ((codes "file", file) ∷ [])))
        (codes "AgentFileRead")

  -- `AgentFileWrite`; a map is written with its keys in order.
  unfoldable pub agent_file_write : Text → Text → Action (Option Json)
  unfolding read post_read
  agent_file_write file content =
      post env calls (agent_path v (codes "file-write"))
        (some (
          Json.object (
            Members.member (codes "content") (Json.string (replies.base64 content))
              (two (codes "encode") (Json.number (pos 0)) (codes "file") (Json.string file)))))
        false
