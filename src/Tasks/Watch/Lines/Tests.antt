-- ===== src/Tasks/Watch/Lines/Tests.antt =====
-- A run of the law on a watched task.
use go_proxmox.Prelude.{ℕ, refl, arith, Bool-cases, inl, inr}
use mathlib.Core.List.Perm
use go_proxmox.Prelude.Text.{Text, codes, text_eq, has_prefix, is_empty}
use go_proxmox.Prelude.Int.{pos}
use go_proxmox.Prelude.Map.{lookup, insert}
use go_proxmox.Errors.{ok}
use go_proxmox.Json.{
  Json, Items, Members, as_list, as_map, number_field, string_field, number_value, string_value,
}
use go_proxmox.World.{Env}
use go_proxmox.Client.Response.{handle_response, payload}
use go_proxmox.Client.Ends.{Ends}
use go_proxmox.Session.{send, exchange, run_interceptors}
use go_proxmox.Session.Req.{req, request_step, get}
use go_proxmox.Tasks.{ping, pinged, lost, task_path, unmarshal_task}
use go_proxmox.Tasks.Ping.{IsClock}
use go_proxmox.Tasks.Sample.{task_env, running_task, task_lib, start_state}
use go_proxmox.Tasks.Log.{unmarshal_log, read_rows, read_row, set_line}
use go_proxmox.Tasks.Watch.{watch}
use go_proxmox.Tasks.Watch.Lines.{ServesLog, IsSteady, Watched}
use go_proxmox.Tasks.Watch.Lines.Tail.{watch-Watched}

-- A server that has one line for every question.
abbrev one_line : Json
one_line = Json.array (
    Items.cons
      (Json.object (
        Members.member (codes "n") (Json.number (pos 1))
          (Members.member (codes "t") (Json.string (codes "starting")) Members.end)))
      Items.nil)

abbrev log_env : Env
log_env = record task_env { parse = λ t. ok one_line }

log_env-IsClock : IsClock log_env
log_env-IsClock = record { sends = λ h r. omega arith; sleeps = λ h d. omega arith }

abbrev site : Text
site = codes "https://pve1:8006/api2/json"

abbrev always : ℕ → Text
always k = codes "starting"

log_env-ServesLog : ServesLog log_env (λ l. ok l) (λ l. l) site (task_path running_task) always
unfolding handle_response payload lookup unmarshal_log read_rows read_row as_list as_map insert
    text_eq number_field string_field number_value string_value set_line
log_env-ServesLog h r start at = (refl, Perm.refl _)

log_env-IsSteady : IsSteady log_env task_lib 1 site 0
unfolding ping pinged lost get req request_step exchange send run_interceptors handle_response
    payload lookup unmarshal_task as_map has_prefix
log_env-IsSteady t s (at, plain) = rw plain (elim (Bool-cases (is_empty t.upid)) [
  | inl e ↦ rw e ((at, refl), omega arith)
  | inr e ↦ rw e ((at, refl), omega arith)
])

watch_example :
    Ends
      (watch log_env task_lib (λ l. ok l) (λ l. l) 1 1 running_task 0 start_state)
      (Watched always 0)
watch_example =
    watch-Watched log_env task_lib (λ l. ok l) (λ l. l) 0 site (task_path running_task) always 0
      log_env-IsClock log_env-ServesLog log_env-IsSteady 0 0 running_task start_state refl
      (refl, refl) (omega arith)
