-- ===== src/Tasks/Watch/Lines.antt =====
-- A server with the lines of a task's log, and what is read of them.
pub mod Tail
mod Tests
use Prim.Native.Nat.{zero, suc}
use go_proxmox.Prelude.{
  ℕ, ◌+◌, ◌≤◌, ◌<◌, ◌≡◌, refl, true, false, Option, none, some, List, [], ◌∷◌, ◌++◌, arith, ap, sym,
  subst, length, Option-cases, inl, inr,
}
use mathlib.Core.List.{Perm}
use go_proxmox.Prelude.Text.{Text, codes, text_eq, has_prefix}
use go_proxmox.Errors.{Result, ok, err}
use go_proxmox.Json.{Json}
use go_proxmox.World.{Request, Response, History, sent, Env}
use go_proxmox.Client.{State}
use go_proxmox.Client.Ends.{Ends, Ends-bind}
use go_proxmox.Client.Response.{handle_response}
use go_proxmox.Session.{send, exchange, run_interceptors, is_refusal}
use go_proxmox.Session.Req.{req, request_step, get}
use go_proxmox.Session.Sent.{IsPlain}
use go_proxmox.Tasks.{Task, TaskLib, ◌>=>◌, task_path, task_running, ping}
use go_proxmox.Tasks.Log.{Log}
use go_proxmox.Tasks.Ping.{IsClock}
use go_proxmox.Tasks.Watch.{texts, log_at, log_of, Fed, task_log}

-- So many lines of a log, from one on.
abbrev pub lines_from : (ℕ → Text) → ℕ → ℕ → List Text
lines_from lines start zero = []
lines_from lines start (suc m) = lines start ∷ lines_from lines (start + 1) m

pub lines_from-append :
    (lines : ℕ → Text) (start m k : ℕ)
    → lines_from lines start (m + k) ≡ lines_from lines start m ++ lines_from lines (start + m) k
lines_from-append lines start zero k =
    let a : zero + k ≡ k = omega arith in
    let b : start + zero ≡ start = omega arith in rw (a, b) refl
lines_from-append lines start (suc m) k =
    let a : suc m + k ≡ suc (m + k) = omega arith in
    let b : start + suc m ≡ start + 1 + m = omega arith in
    rw (a, b) (ap (λ ls. lines start ∷ ls) (lines_from-append lines (start + 1) m k))

-- A page of the log, in any order: as many lines as it has, from its start on.
abbrev pub IsPage : (Log → Log) → (ℕ → Text) → ℕ → Result Log → Type 0
IsPage order lines start (err e) = Unit
IsPage order lines start (ok log) = Perm (texts order log) (lines_from lines start (length log))

module _ (env : Env) (copy : Log → Result Log) (order : Log → Log) (base path : Text)
    (lines : ℕ → Text) where
  abbrev pub Answered : ℕ → Result Response → Type 0
  Answered start (err e) = Unit
  Answered start (ok res) =
      (is_refusal res.code ≡ false)
      × IsPage order lines start (handle_response env res true >=> log_of copy)

  -- The server refuses no request for the log, and answers each with an error or a page.
  abbrev pub ServesLog : Type 0
  ServesLog =
      (h : History) (r : Request) (start : ℕ)
      → r.url ≡ base ++ log_at path start 50
      → Answered start (env.answer h r)

-- A ping ends, and a task that it gives is still that task, and does not run after some time.
module _ (env : Env) (lib : TaskLib) (calls : ℕ) (base : Text) (up : ℕ) where
  abbrev pub Pinged : Task → State → Result Task → State → Type 0
  Pinged t s (err e) u = IsPlain base u × (env.now s.past ≤ env.now u.past)
  Pinged t s (ok t') u =
      IsPlain base u
      × (env.now s.past ≤ env.now u.past)
      × (task_path t' ≡ task_path t)
      × (up ≤ env.now s.past → text_eq t'.status task_running ≡ false)

  abbrev pub IsSteady : Type 0
  IsSteady = (t : Task) (s : State) → IsPlain base s → Ends (ping env lib calls t s) (Pinged t s)

-- A page from the start, and then the lines from the number of its lines on.
abbrev pub Watched : (ℕ → Text) → ℕ → Result Fed → State → Type 0
Watched lines start (err e) u = Unit
Watched lines start (ok (ls, e)) u =
    (m : ℕ) × (k : ℕ) × (0 < m) × Perm ls (lines_from lines start m ++ lines_from lines m k)

module _ (env : Env) (lib : TaskLib) (copy : Log → Result Log) (order : Log → Log) (f : ℕ)
    (base path : Text) (lines : ℕ → Text) (up : ℕ) (clock : IsClock env)
    (serves : ServesLog env copy order base path lines)
    (steady : IsSteady env lib (suc f) base up) where
  abbrev pub Moved : State → State → Type 0
  Moved s u = IsPlain base u × (env.now s.past ≤ env.now u.past)

  abbrev pub Read : ℕ → State → Result Log → State → Type 0
  Read start s r u = Moved s u × IsPage order lines start r

  abbrev Got : ℕ → State → Result (Option Json) → State → Type 0
  Got start s r u = Moved s u × IsPage order lines start (r >=> log_of copy)

  abbrev Heard : ℕ → State → Result Response → State → Type 0
  Heard start s (err e) u = Moved s u
  Heard start s (ok res) u =
      (is_refusal res.code ≡ false)
      × (Moved s u × IsPage order lines start (handle_response env res true >=> log_of copy))

  heard :
      (start : ℕ) (s : State) (q : Request)
      → q.url ≡ base ++ log_at path start 50
      → IsPlain base s
      → Heard start s (env.answer s.past q) (record s { past = sent q ∷ s.past })
  heard start s q at plain = go (env.answer s.past q) (serves s.past q start at)
    where
      go :
          (o : Result Response)
          → Answered env copy order base path lines start o
          → Heard start s o (record s { past = sent q ∷ s.past })
      go (err e) _ = (plain, clock.sends s.past q)
      go (ok res) (accepted, page) = (accepted, ((plain, clock.sends s.past q), page))

  exchange-Heard :
      (start : ℕ) (s : State)
      → IsPlain base s
      → Ends (exchange env (codes "GET") (base ++ log_at path start 50) none s) (Heard start s)
  unfolding exchange send run_interceptors
  exchange-Heard start s (at, plain) =
      elim (Option-cases (env.request_error (codes "GET") (base ++ log_at path start 50))) [
        | inl e ↦ rw e (rw plain (heard start _ _ refl (at, refl)))
        | inr (x, e) ↦ rw e ((at, plain), omega arith)
      ]

  get-Got :
      (start : ℕ) (s : State) (t : Task)
      → task_path t ≡ path
      → IsPlain base s
      → Ends (get env (suc f) (log_at (task_path t) start 50) true s) (Got start s)
  unfolding get req request_step has_prefix
  get-Got start s t there (at, plain) =
      Ends-bind (exchange env (codes "GET") _ none) _ s (Heard start s) (Got start s)
        (subst
          (λ b.
            Ends (exchange env (codes "GET") (b ++ log_at (task_path t) start 50) none s)
              (Heard start s))
          (sym at)
          (subst
            (λ p.
              Ends (exchange env (codes "GET") (base ++ log_at p start 50) none s) (Heard start s))
            (sym there) (exchange-Heard start s (at, plain))))
        (λ res u q. rw q.0 q.1) (λ e u q. (q, tt))

  pub task_log-Read :
      (start : ℕ) (s : State) (t : Task)
      → task_path t ≡ path
      → IsPlain base s
      → Ends (task_log env lib copy order (suc f) t start 50 s) (Read start s)
  unfolding task_log
  task_log-Read start s t there h =
      Ends-bind (get env (suc f) (log_at (task_path t) start 50) true) _ s (Got start s)
        (Read start s) (get-Got start s t there h) (λ a u q. q) (λ e u q. q)
