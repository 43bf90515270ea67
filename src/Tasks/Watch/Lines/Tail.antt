-- ===== src/Tasks/Watch/Lines/Tail.antt =====
-- Which lines of a task's log `Watch` sends.
use Prim.Native.Nat.{zero, suc}
use go_proxmox.Prelude.{
  ℕ, ◌+◌, ◌*◌, ◌^◌, ◌≤◌, ◌<◌, ◌≡◌, Bool, true, false, [], ◌∷◌, ◌++◌, arith, ◌∙◌, length, Bool-cases,
  inl, inr, ◌==◌, if◌then◌else◌, ltb, ltb→lt, ltb-false→le,
}
use mathlib.Core.List.{Perm}
use mathlib.Core.List.Perm
use go_proxmox.Prelude.Text.{Text, codes, text_eq}
use go_proxmox.Prelude.Int.{pos}
use go_proxmox.Errors.{message, Result, ok, err}
use go_proxmox.World.{slept, Env}
use go_proxmox.Client.{State, Action, ◌>>=◌, ◌>>◌, pure, raise}
use go_proxmox.Client.Ends.{Ends, Ends-bind, Ends-try, Ends-mono}
use go_proxmox.Session.Sent.{IsPlain}
use go_proxmox.Tasks.{Task, TaskLib, task_path, task_running, ping, sleep}
use go_proxmox.Tasks.Log.{Log}
use go_proxmox.Tasks.Ping.{IsClock}
use go_proxmox.Tasks.Watch.{
  texts, Fed, fed_before, task_log, tailed, watched, tasktail, try_again, watch,
}
use go_proxmox.Tasks.Watch.Lines
use go_proxmox.Tasks.Watch.Lines.{
  lines_from, lines_from-append, IsPage, ServesLog, Pinged, IsSteady, Watched,
}

still_early : (a up : ℕ) (b : Bool) → (up ≤ a → b ≡ false) → b ≡ true → a < up
still_early a up b stopped runs = elim (Bool-cases (ltb a up)) [
  | inl e ↦ ltb→lt a up e
  | inr e ↦ let n = stopped (ltb-false→le a up e) in cc
]

module _ (env : Env) (lib : TaskLib) (copy : Log → Result Log) (order : Log → Log) (f : ℕ)
    (base path : Text) (lines : ℕ → Text) (up : ℕ) (clock : IsClock env)
    (serves : ServesLog env copy order base path lines)
    (steady : IsSteady env lib (suc f) base up) where
  abbrev Read : ℕ → State → Result Log → State → Type 0
  Read = Lines.Read env lib copy order f base path lines up clock serves steady

  -- What the rounds of `tasktail` send.
  abbrev Feeds : ℕ → Result Fed → State → Type 0
  Feeds start (err e) u = ⊥
  Feeds start (ok (ls, e)) u = (k : ℕ) × Perm ls (lines_from lines start k)

  -- What follows a page, from some time on.
  abbrev IsNext : ℕ → (ℕ → Action Fed) → Type 0
  IsNext low next =
      (start : ℕ) (u : State)
      → IsPlain base u
      → low ≤ env.now u.past
      → Ends (next start u) (Feeds start)

  fed_after :
      (start : ℕ) (log : Log) (a : Fed) (u : State)
      → IsPage order lines start (ok log)
      → Feeds (start + length log) (ok a) u
      → Feeds start (ok (fed_before (texts order log) a)) u
  fed_after start log (ls, e) u page (k, p) =
      (length log + k, rw (lines_from-append lines start (length log) k) (Perm.append page p))

  tailed-Feeds :
      (next : ℕ → Action Fed) (start : ℕ) (r : Result Log) (s u : State)
      → IsNext (env.now s.past + 2 * 10 ^ 9) next
      → Read start s r u
      → Ends (tailed env lib copy order (suc f) next start r u) (Feeds start)
  unfolding tailed sleep
  tailed-Feeds next start (err e) s u go q = (zero, Perm.refl [])
  tailed-Feeds next start (ok log) s u go ((plain, later), page) =
      Ends-bind (sleep env lib (suc f) (2 * 10 ^ 9) >> next (start + length log)) _ u
        (Feeds (start + length log)) (Feeds start)
        (go (start + length log) _ plain (omega (arith, clock.sleeps u.past (2 * 10 ^ 9))))
        (λ a v p. fed_after start log a v page p) (λ e v p. absurd p)

  watched-Feeds :
      (next : Task → Action Fed) (start : ℕ) (t : Task) (r : Result Task) (s u : State)
      → Pinged env lib (suc f) base up t s r u
      → ((t' : Task)
          → task_path t' ≡ task_path t
          → env.now s.past < up
          → Ends (next t' u) (Feeds start))
      → Ends (watched env lib copy order (suc f) next r u) (Feeds start)
  unfolding watched
  watched-Feeds next start t (err e) s u q go = (zero, Perm.refl [])
  watched-Feeds next start t (ok t') s u (plain, later, same, ended) go =
      elim (Bool-cases (text_eq t'.status task_running)) [
        | inr e ↦ rw e (zero, Perm.refl [])
        | inl e ↦ rw e (go t' same (still_early _ up _ ended e))
      ]

  -- What the rounds of `tasktail` send.
  tasktail-Feeds :
      (rounds start : ℕ) (t : Task) (s : State)
      → task_path t ≡ path
      → IsPlain base s
      → up ≤ env.now s.past + rounds * (2 * 10 ^ 9)
      → Ends (tasktail env lib copy order (suc f) (suc rounds) start t s) (Feeds start)
  unfolding tasktail
  tasktail-Feeds zero start t s there h late =
      Ends-try (ping env lib (suc f) t) _ s (Pinged env lib (suc f) base up t s) (Feeds start)
        (steady t s h)
        (λ r u q. watched-Feeds _ start t r s u q (λ t' same early. absurd (omega arith)))
  tasktail-Feeds (suc rounds) start t s there h late =
      Ends-try (ping env lib (suc f) t) _ s (Pinged env lib (suc f) base up t s) (Feeds start)
        (steady t s h)
        (λ r u q. watched-Feeds _ start t r s u q (λ t' same early.
          Ends-try (task_log env lib copy order (suc f) t' start 50) _ u (Read start u)
            (Feeds start)
            (Lines.task_log-Read env lib copy order f base path lines up clock serves steady start u
              t' (same ∙ there) (plain_after r u q))
            (λ r' v p.
              tailed-Feeds _ start r' v v
                (λ n w plain low.
                  tasktail-Feeds rounds n t' w (same ∙ there) plain
                    (omega (arith, later_than s r u q, p.0.1)))
                ((p.0.0, omega arith), p.1))))
    where
      plain_after :
          (r : Result Task) (u : State) → Pinged env lib (suc f) base up t s r u → IsPlain base u
      plain_after (err e) u q = q.0
      plain_after (ok t') u q = q.0

      later_than :
          (s : State) (r : Result Task) (u : State)
          → Pinged env lib (suc f) base up t s r u
          → env.now s.past ≤ env.now u.past
      later_than s (err e) u q = q.1
      later_than s (ok t') u q = q.1

  Read-since :
      (start : ℕ) (s v : State) (r : Result Log) (u : State)
      → env.now s.past ≤ env.now v.past
      → Read start v r u
      → Read start s r u
  Read-since start s v r u h ((plain, later), page) = ((plain, omega arith), page)

  abbrev after_sleep : State → State
  after_sleep s = record s { past = slept (pos (10 ^ 9)) ∷ s.past }

  try_again-Read :
      (i start : ℕ) (t : Task) (log : Log) (s : State)
      → task_path t ≡ path
      → IsPlain base s
      → IsPage order lines start (ok log)
      → Ends (try_again env lib copy order (suc f) i t start log s) (Read start s)
  unfolding try_again sleep
  try_again-Read zero start t log s there h page = ((h, omega arith), page)
  try_again-Read (suc i) start t log s there h page = elim (Bool-cases (length log == 0)) [
    | inr e ↦ rw e ((h, omega arith), page)
    | inl e ↦ rw e (
        Ends-bind (sleep env lib (suc f) (10 ^ 9) >> task_log env lib copy order (suc f) t start 50)
          (try_again env lib copy order (suc f) i t start) s (Read start s) (Read start s)
          (Ends-mono _ (Read start (after_sleep s)) (Read start s)
            (Lines.task_log-Read env lib copy order f base path lines up clock serves steady start
              (after_sleep s) t there h)
            (λ r u q.
              Read-since start s (after_sleep s) r u (omega (arith, clock.sleeps s.past (10 ^ 9)))
                q))
          (λ a u q.
            Ends-mono _ (Read start u) (Read start s) (try_again-Read i start t a u there q.0.0 q.1)
              (λ r v p. Read-since start s u r v q.0.1 p))
          (λ e' u q. q))
  ]

  opened :
      (start : ℕ) (log : Log) (a : Fed) (u : State)
      → (length log == 0) ≡ false
      → IsPage order lines start (ok log)
      → Feeds (length log) (ok a) u
      → Watched lines start (ok (fed_before (texts order log) a)) u
  opened start log (ls, e) u some_lines page (k, p) =
      (length log, k, ground arith, Perm.append page p)

  fed_on :
      (rounds start : ℕ) (t : Task) (log : Log) (s u : State)
      → task_path t ≡ path
      → up ≤ env.now s.past + rounds * (2 * 10 ^ 9)
      → Read start s (ok log) u
      → Ends
          ((if length log == 0
              then raise (message (codes "no logs available for " ++ t.upid))
              else (tasktail env lib copy order (suc f) (suc rounds) (length log) t >>= λ rest.
                  pure (fed_before (texts order log) rest)))
            u)
          (Watched lines start)
  fed_on rounds start t log s u there late ((plain, later), page) =
      elim (Bool-cases (length log == 0)) [
        | inl e ↦ rw e tt
        | inr e ↦ rw e (
            Ends-bind (tasktail env lib copy order (suc f) (suc rounds) (length log) t) _ u
              (Feeds (length log)) (Watched lines start)
              (tasktail-Feeds rounds (length log) t u there plain (omega arith))
              (λ a v p. opened start log a v e page p) (λ e' v p. tt))
      ]

  -- Watch ends, and the lines that it sends are, in some order, those of a page from the line that
  -- is asked for, which has at least one line, and then those from the number of the page's lines
  -- on, up to some line: from line 0, every line up to there, and none twice; from a later line,
  -- lines from an earlier place again. Or it is an error, and no line is sent. The conditions: the
  -- server refuses no request for the task's log, and answers each with an error or with lines from
  -- the one asked for on; a ping ends with an error or with that task, which does not run after
  -- some time; the client has no interceptors; the clock and the timers run; and the tail has the
  -- rounds that reach the time when the task has ended.
  pub watch-Watched :
      (rounds start : ℕ) (t : Task) (s : State)
      → task_path t ≡ path
      → IsPlain base s
      → up ≤ env.now s.past + rounds * (2 * 10 ^ 9)
      → Ends (watch env lib copy order (suc f) (suc rounds) t start s) (Watched lines start)
  unfolding watch
  watch-Watched rounds start t s there h late =
      Ends-bind
        (task_log env lib copy order (suc f) t start 50
          >>= try_again env lib copy order (suc f) 3 t start)
        _ s (Read start s) (Watched lines start)
        (Ends-bind (task_log env lib copy order (suc f) t start 50)
          (try_again env lib copy order (suc f) 3 t start) s (Read start s) (Read start s)
          (Lines.task_log-Read env lib copy order f base path lines up clock serves steady start s t
            there h)
          (λ log u q.
            Ends-mono _ (Read start u) (Read start s)
              (try_again-Read 3 start t log u there q.0.0 q.1)
              (λ r v p. Read-since start s u r v q.0.1 p))
          (λ e u q. q))
        (λ log u q. fed_on rounds start t log s u there late q) (λ e u q. tt)
