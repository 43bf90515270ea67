-- ===== src/Tasks.antt =====
-- tasks.go and the Task of types.go: reading a UPID, pinging a task, and waiting for its end.
-- Durations are nanoseconds that are not negative.
pub mod Exit
pub mod Upid
pub mod Ping
pub mod Wait
pub mod Complete
pub mod Log
pub mod Watch
pub mod Sample
mod Tests
use Prim.Native.Nat.{zero, suc}
use go_proxmox.Prelude.{
  ℕ, ◌+◌, ◌-◌, ◌*◌, ◌^◌, Bool, true, false, not, ◌&&◌, ◌||◌, Option, none, some, List, [], ◌∷◌,
  ◌++◌, if◌then◌else◌, ltb, leb, ◌==◌, all, length, get_elem?,
}
use go_proxmox.Prelude.Text.{Text, codes, is_empty, text_eq, drop_prefix, split, is_digit}
use go_proxmox.Prelude.Int.{ℤ, pos, negsuc, sub_ℤ, eq_ℤ, times, seconds_of}
use go_proxmox.Prelude.Map.{Map}
use go_proxmox.Errors.{Error, sentinel, message, timed_out, Result, ok, err}
use go_proxmox.Errors.Decimal.{decimal}
use go_proxmox.Json.{Json, as_map, number_field}
use go_proxmox.World.{History, slept, Env}
use go_proxmox.Client.{State, Action, ◌>>=◌, ◌>>◌, pure, raise, lift, gets, try}
use go_proxmox.Session.Req.{get, delete}

-- `Task`, without its client. A time is in seconds since the epoch; `none` is the zero time.
pub record Task : Type 0 where
  pub upid : Text
  pub id : Text
  pub kind : Text
  pub user : Text
  pub status : Text
  pub node : Text
  pub pid : ℕ
  pub pstart : ℕ
  pub saved : Text
  pub exit_status : Text
  pub is_completed : Bool
  pub is_running : Bool
  pub is_failed : Bool
  pub is_successful : Bool
  pub start_time : Option ℤ
  pub end_time : Option ℤ
  pub duration : ℤ

abbrev pub blank_task : Text → Task
blank_task u = record {
  upid = u;
  id = [];
  kind = [];
  user = [];
  status = [];
  node = [];
  pid = 0;
  pstart = 0;
  saved = [];
  exit_status = [];
  is_completed = false;
  is_running = false;
  is_failed = false;
  is_successful = false;
  start_time = none;
  end_time = none;
  duration = pos 0;
}

-- `sp[i]`, for an index that is there.
abbrev pub field_at : List Text → ℕ → Text
field_at sp i = elim (get_elem? sp i) [ none ↦ [] | some s ↦ s ]

-- `NewTask`; nil for an empty UPID, and no parts of one with fewer than eight fields.
unfoldable pub new_task : Text → Option Task
new_task u =
    if is_empty u
    then none
    else (let sp = split b':' u in
        if ltb (length sp) 8
        then some (blank_task u)
        else some (record (blank_task u) {
          node = field_at sp 1;
          kind = field_at sp 5;
          id = field_at sp 6;
          user = field_at sp 7;
        }))

-- `^WARNINGS: \d+$`.
abbrev all_digits : Text → Bool
all_digits [] = false
all_digits (c ∷ s) = all is_digit (c ∷ s)

abbrev digits_after : Option Text → Bool
digits_after none = false
digits_after (some n) = all_digits n

is_task_warnings : Text → Bool
is_task_warnings s = digits_after (drop_prefix s (codes "WARNINGS: "))

-- `taskExitSucceeded`.
unfoldable pub task_exit_succeeded : Text → Bool
unfolding is_task_warnings
task_exit_succeeded exit_status = text_eq exit_status (codes "OK") || is_task_warnings exit_status

-- What decoding a task rests on: encoding/json's reading of the struct, and the copy of the
-- exported fields by github.com/jinzhu/copier, from the second task onto the first.
pub record TaskLib : Type 0 where
  pub struct_decode : Json → Result Task
  pub copy : Task → Task → Task

-- `time.Unix(n, 0)`; one second is Go's zero time.
unfoldable pub unix_time : ℤ → Option ℤ
unix_time n = if eq_ℤ n (negsuc 62135596799) then none else some n

unfoldable pub set_start : Option ℤ → Task → Task
set_start none t = t
set_start (some n) t = record t { start_time = unix_time n }

unfoldable pub set_end : Option ℤ → Task → Task
set_end none t = t
set_end (some n) t = record t { end_time = unix_time n }

span : Option ℤ → Option ℤ → ℤ → ℤ
span (some a) (some b) d = times (sub_ℤ b a) (10 ^ 9)
span _ _ d = d

infixl 5 ◌>=>◌
abbrev pub ◌>=>◌ : {A B : Type 0} → Result A → (A → Result B) → Result B
ok a >=> f = f a
err e >=> f = err e

module _ (lib : TaskLib) where
  -- `(t *Task) UnmarshalJSON`.
  unfoldable pub unmarshal_task : Task → Json → Result Task
  unfolding set_start set_end span
  unmarshal_task t v = as_map v >=> λ tmp. lib.struct_decode v >=> λ task.
      number_field (codes "Task") tmp (codes "starttime") >=> λ a.
      number_field (codes "Task") tmp (codes "endtime") >=> λ b.
      let task' = set_end b (set_start a task) in
      ok (
        lib.copy t
          (record task' { duration = span task'.start_time task'.end_time task'.duration }))

-- What `Ping` derives from the status and the exit status.
unfoldable pub settle_exit : Task → Task
settle_exit t =
    if t.is_completed
    then (if task_exit_succeeded t.exit_status
        then record t { is_successful = true }
        else record t { is_failed = true })
    else t

unfoldable pub settle : Task → Task
unfolding settle_exit
settle t = settle_exit (
    if text_eq t.status (codes "stopped")
    then record t { is_completed = true }
    else record t { is_running = true })

abbrev pub task_path : Task → Text
task_path t = codes "/nodes/" ++ (t.node ++ (codes "/tasks/" ++ t.upid))

abbrev pub task_running : Text
task_running = codes "running"

-- An error of `Ping`: it goes on with a task of its own, which is nil for an empty UPID.
unfoldable pub lost : Task → Error → Result Task
lost t e = if is_empty t.upid then err (message (codes "panic: nil pointer dereference")) else err e

abbrev pub pinged_with : Task → Result Task → Result Task
pinged_with t (err e) = lost t e
pinged_with t (ok t') = ok (settle t')

-- The receiver after the answer is decoded into it; null leaves it alone.
abbrev pub received : TaskLib → Task → Json → Result Task
received lib t Json.null = ok t
received lib t v = unmarshal_task lib t v

-- What `Ping` makes of the answer. The receiver keeps what was decoded into it.
unfoldable pub pinged : TaskLib → Task → Result (Option Json) → Result Task
unfolding lost
pinged lib t (err e) = lost t e
pinged lib t (ok none) = ok (settle t)
pinged lib t (ok (some v)) = pinged_with t (received lib t v)

module _ (env : Env) (lib : TaskLib) (calls : ℕ) where
  -- `Ping`, with the task as it leaves the receiver.
  unfoldable pub ping : Task → Action Task
  unfolding get
  ping t = try (get env calls (task_path t ++ codes "/status") true) >>= λ answer.
      lift (pinged lib t answer)

  -- `Stop`.
  unfoldable pub stop_task : Task → Action (Option Json)
  stop_task t = delete env calls (task_path t) false

  unfoldable pub sleep : ℕ → Action (Unit {0})
  sleep d s = some (ok tt, record s { past = slept (pos d) ∷ s.past })

  -- The timer of `time.After` has fired.
  unfoldable pub expired : ℕ → State → Bool
  expired deadline s = leb deadline (env.now s.past)

  -- A round of `Wait` after its ping: the error if any, and the task.
  unfoldable pub waited :
      (Task → Action (Option Error × Task)) → Task → Result Task → Action (Option Error × Task)
  waited next t (err e) = pure (some e, t)
  waited next t (ok t') = if text_eq t'.status task_running then next t' else pure (none, t')

  -- The loop of `Wait`.
  unfoldable pub wait_loop : ℕ → ℕ → ℕ → Task → Action (Option Error × Task)
  unfolding sleep expired
  wait_loop zero interval deadline t = λ s. none
  wait_loop (suc rounds) interval deadline t = λ s.
      if expired deadline s
      then some (ok (some (sentinel timed_out), t), s)
      else (try (ping t)
            >>= waited (λ t'. sleep interval >>= λ _. wait_loop rounds interval deadline t') t)
          s

  -- `Wait`: the timer starts after the first ping.
  unfoldable pub wait_from : ℕ → ℕ → ℕ → Task → Result Task → Action (Option Error × Task)
  wait_from rounds interval max t (err e) s = pure (some e, t) s
  wait_from rounds interval max t (ok t') s = wait_loop rounds interval (env.now s.past + max) t' s

  unfoldable pub wait : ℕ → ℕ → ℕ → Task → Action (Option Error × Task)
  unfolding wait_from
  wait rounds interval max t = try (ping t) >>= wait_from rounds interval max t

  -- `WaitFor`, at the default interval of a second.
  unfoldable pub wait_for : ℕ → ℕ → Task → Action (Option Error × Task)
  wait_for rounds seconds = wait rounds (10 ^ 9) (seconds_of seconds)
