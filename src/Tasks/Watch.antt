-- ===== src/Tasks/Watch.antt =====
-- tasks.go: `Task.Log`, `Watch` and `tasktail`. The goroutine that feeds the channel is followed to
-- its end, for a receiver that takes every line; its error is only logged. Line numbers are from 0
-- on. `order` is the order in which Go ranges over a map.
pub mod Lines
use Prim.Native.Nat.{zero, suc}
use go_proxmox.Prelude.{
  ℕ, ◌+◌, ◌*◌, ◌^◌, ◌==◌, Bool, true, Option, none, some, List, [], ◌∷◌, ◌++◌, map, length,
  if◌then◌else◌,
}
use go_proxmox.Prelude.Text.{Text, codes, text_eq}
use go_proxmox.Prelude.Int.{ℤ}
use go_proxmox.Errors.{Error, message, Result, ok, err}
use go_proxmox.Errors.Decimal.{decimal}
use go_proxmox.Json.{Json}
use go_proxmox.World.{Env}
use go_proxmox.Client.{State, Action, ◌>>=◌, ◌>>◌, pure, raise, lift, try}
use go_proxmox.Session.Req.{get}
use go_proxmox.Tasks.{Task, TaskLib, task_path, task_running, ping, sleep}
use go_proxmox.Tasks.Log.{Log, no_lines, unmarshal_log}

-- The lines that a page of the log has, in the order of the range.
abbrev pub texts : (Log → Log) → Log → List Text
texts order log = map (λ (l : ℤ × Text). l.1) (order log)

abbrev pub log_at : Text → ℕ → ℕ → Text
log_at path start limit =
    path ++ (codes "/log?start=" ++ (decimal start ++ (codes "&limit=" ++ decimal limit)))

abbrev pub log_of : (Log → Result Log) → Option Json → Result Log
log_of copy none = ok no_lines
log_of copy (some v) = unmarshal_log copy v

-- What the goroutine sends, and the error that ends it.
abbrev pub Fed : Type 0
Fed = List Text × Option Error

abbrev pub fed_before : List Text → Fed → Fed
fed_before ls (more, e) = (ls ++ more, e)

module _ (env : Env) (lib : TaskLib) (copy : Log → Result Log) (order : Log → Log) (calls : ℕ) where
  -- `Task.Log`.
  unfoldable pub task_log : Task → ℕ → ℕ → Action Log
  unfolding get
  task_log t start limit =
      get env calls (log_at (task_path t) start limit) true >>= λ a. lift (log_of copy a)

  -- A page of `tasktail`, and what follows with the line after it.
  unfoldable pub tailed : (ℕ → Action Fed) → ℕ → Result Log → Action Fed
  unfolding sleep
  tailed next start (err e) = pure ([], some e)
  tailed next start (ok logs) =
      sleep env lib calls (2 * 10 ^ 9) >> next (start + length logs) >>= λ rest.
      pure (fed_before (texts order logs) rest)

  -- The ping of a round.
  unfoldable pub watched : (Task → Action Fed) → Result Task → Action Fed
  watched next (err e) = pure ([], some e)
  watched next (ok t) = if text_eq t.status task_running then next t else pure ([], none)

  -- `tasktail`, by the rounds that it may make.
  unfoldable pub tasktail : ℕ → ℕ → Task → Action Fed
  unfolding tailed watched task_log
  tasktail zero start t = λ s. none
  tasktail (suc rounds) start t =
      try (ping env lib calls t)
      >>= watched
          (λ t'. try (task_log t' start 50) >>= tailed (λ next. tasktail rounds next t') start)

  -- The three tries of `Watch` for a log with entries.
  unfoldable pub try_again : ℕ → Task → ℕ → Log → Action Log
  unfolding sleep task_log
  try_again zero t start log = pure log
  try_again (suc i) t start log =
      let next = sleep env lib calls (10 ^ 9) >> task_log t start 50 >>= try_again i t start in
      if length log == 0 then next else pure log

  -- `Watch`: the lines that are sent on the channel until it is closed.
  unfoldable pub watch : ℕ → Task → ℕ → Action Fed
  unfolding task_log try_again tasktail
  watch rounds t start = task_log t start 50 >>= try_again 3 t start >>= λ log.
      if length log == 0
      then raise (message (codes "no logs available for " ++ t.upid))
      else (tasktail rounds (length log) t >>= λ rest. pure (fed_before (texts order log) rest))
