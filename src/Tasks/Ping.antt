-- ===== src/Tasks/Ping.antt =====
-- What a ping leaves of a task, and that it ends.
use Prim.Native.Nat.{suc}
use go_proxmox.Prelude.{
  ℕ, ◌+◌, ◌≤◌, ◌≡◌, refl, ◌≢◌, Bool, true, false, not, Option, none, some, ◌∷◌, ◌++◌, arith, [],
  ◌==◌, ◌||◌, Option-cases, ap, sym, ◌∙◌, subst, ◌&&◌, inl, inr, ◌⊎◌,
}
use go_proxmox.Prelude.Text.{Text, codes, text_eq}
use go_proxmox.Errors.{Error, Result, ok, err}
use go_proxmox.Json.{Json, Members, end, member, as_map, number_field}
use go_proxmox.World.{Request, Response, History, sent, slept, Env}
use go_proxmox.Prelude.Int.{ℤ, pos}
use go_proxmox.Client.{State, ◌>>=◌, lift}
use go_proxmox.Client.Ends.{Ends, Ends-bind, Ends-try, Ends-mono, Ends-try_eq}
use go_proxmox.Session.{is_refusal, exchange, send, run_interceptors}
use go_proxmox.Session.Req.{req, request_step, get}
use go_proxmox.Tasks.{
  Task, TaskLib, settle, settle_exit, unmarshal_task, received, task_exit_succeeded, ping, pinged,
  task_path, lost, pinged_with, ◌>=>◌, set_start, set_end,
}

-- No flag of the task is set.
pub record IsFresh (t : Task) : Type 0 where
  pub not_completed : t.is_completed ≡ false
  pub not_running : t.is_running ≡ false
  pub not_failed : t.is_failed ≡ false
  pub not_successful : t.is_successful ≡ false

-- The flags say what the status and the exit status say.
pub record IsSettled (t : Task) : Type 0 where
  pub completed : t.is_completed ≡ text_eq t.status (codes "stopped")
  pub running : t.is_running ≡ not (text_eq t.status (codes "stopped"))
  pub successful :
      t.is_successful ≡ (text_eq t.status (codes "stopped") && task_exit_succeeded t.exit_status)
  pub failed :
      t.is_failed ≡ (text_eq t.status (codes "stopped") && not (task_exit_succeeded t.exit_status))

settle-IsSettled : (t : Task) → IsFresh t → IsSettled (settle t)
unfolding settle settle_exit
settle-IsSettled t h = record {
  completed = ground (arith, h.not_completed, h.not_running, h.not_failed, h.not_successful);
  running = ground (arith, h.not_completed, h.not_running, h.not_failed, h.not_successful);
  successful = ground (arith, h.not_completed, h.not_running, h.not_failed, h.not_successful);
  failed = ground (arith, h.not_completed, h.not_running, h.not_failed, h.not_successful);
}

-- A key that may name a flag: it begins with "is", in any case of the letters (197 begins the long s).
abbrev names_flag : Text → Bool
names_flag [] = false
names_flag (c ∷ []) = false
names_flag (c ∷ (d ∷ _)) = (c == b'i' || c == b'I') && (d == b's' || (d == b'S' || d == 197))

abbrev NamesNone : Members → Type 0
NamesNone end = Unit
NamesNone (member k _ ms) = (names_flag k ≡ false) × NamesNone ms

-- A value with no key that sets a flag of a task: the API's answers hold none.
abbrev pub SetsNoFlag : Json → Type 0
SetsNoFlag (Json.object ms) = NamesNone ms
SetsNoFlag _ = Unit

abbrev pub SetsNoFlagIfAny : Result (Option Json) → Type 0
SetsNoFlagIfAny (ok (some v)) = SetsNoFlag v
SetsNoFlagIfAny _ = Unit

-- The fields that a task's JSON does not set stay blank, and a decoded task is copied with its flags.
pub record IsTaskLib (lib : TaskLib) : Type 0 where
  pub decodes : (v : Json) (t : Task) → SetsNoFlag v → lib.struct_decode v ≡ ok t → IsFresh t
  pub copies : (t u : Task) → IsFresh u → IsFresh (lib.copy t u)

ok-injective : (a b : Task) → Result.ok a ≡ Result.ok b → a ≡ b
ok-injective a b e = cc

Result-cases : {A : Type 0} (r : Result A) → ((a : A) × (r ≡ ok a)) ⊎ ((e : Error) × (r ≡ err e))
Result-cases (ok a) = inl (a, refl)
Result-cases (err e) = inr (e, refl)

pub carried : (P : Task → Type 0) (a b : Task) → P a → Result.ok a ≡ Result.ok b → P b
carried P a b p e = subst P (ok-injective a b e) p

chained :
    {A B : Type 0} (m : Result A) (f : A → Result B) (b : B)
    → (m >=> f) ≡ ok b
    → (a : A) × (m ≡ ok a) × (f a ≡ ok b)
chained (ok a) f b h = (a, refl, h)
chained (err e) f b h = cc

set_start-IsFresh : (n : Option ℤ) (t : Task) → IsFresh t → IsFresh (set_start n t)
unfolding set_start
set_start-IsFresh none t h = h
set_start-IsFresh (some n) t h = record {
  not_completed = h.not_completed;
  not_running = h.not_running;
  not_failed = h.not_failed;
  not_successful = h.not_successful;
}

set_end-IsFresh : (n : Option ℤ) (t : Task) → IsFresh t → IsFresh (set_end n t)
unfolding set_end
set_end-IsFresh none t h = h
set_end-IsFresh (some n) t h = record {
  not_completed = h.not_completed;
  not_running = h.not_running;
  not_failed = h.not_failed;
  not_successful = h.not_successful;
}

duration-IsFresh : (d : ℤ) (t : Task) → IsFresh t → IsFresh (record t { duration = d })
duration-IsFresh d t h = record {
  not_completed = h.not_completed;
  not_running = h.not_running;
  not_failed = h.not_failed;
  not_successful = h.not_successful;
}

module _ (lib : TaskLib) (good : IsTaskLib lib) where
  unmarshal_task-IsFresh :
      (t u : Task) (v : Json) → SetsNoFlag v → unmarshal_task lib t v ≡ ok u → IsFresh u
  unfolding unmarshal_task
  unmarshal_task-IsFresh t u v none_set h =
      let (tmp, _, h1) = chained (as_map v) _ u h in
      let (task, decoded, h2) = chained (lib.struct_decode v) _ u h1 in
      let (a, _, h3) = chained (number_field (codes "Task") tmp (codes "starttime")) _ u h2 in
      let (b, _, h4) = chained (number_field (codes "Task") tmp (codes "endtime")) _ u h3 in
      carried IsFresh _ u
        (good.copies t _ (
          duration-IsFresh _ _ (
            set_end-IsFresh b _ (set_start-IsFresh a task (good.decodes v task none_set decoded)))))
        h4

  received-IsFresh :
      (t u : Task) (v : Json) → SetsNoFlag v → IsFresh t → received lib t v ≡ ok u → IsFresh u
  received-IsFresh t u Json.null none_set h e = carried IsFresh t u h e
  received-IsFresh t u (Json.boolean b) none_set h e =
      unmarshal_task-IsFresh t u (Json.boolean b) none_set e
  received-IsFresh t u (Json.number n) none_set h e =
      unmarshal_task-IsFresh t u (Json.number n) none_set e
  received-IsFresh t u (Json.string s) none_set h e =
      unmarshal_task-IsFresh t u (Json.string s) none_set e
  received-IsFresh t u (Json.array l) none_set h e =
      unmarshal_task-IsFresh t u (Json.array l) none_set e
  received-IsFresh t u (Json.object m) none_set h e =
      unmarshal_task-IsFresh t u (Json.object m) none_set e

  lost-err : (t u : Task) (e : Error) → lost t e ≢ ok u
  unfolding lost
  lost-err t u e h = ground arith

  pinged-IsSettled :
      (t u : Task) (r : Result (Option Json))
      → SetsNoFlagIfAny r
      → IsFresh t
      → pinged lib t r ≡ ok u
      → IsSettled u
  unfolding pinged
  pinged-IsSettled t u (err e) q fresh h = absurd (lost-err t u e h)
  pinged-IsSettled t u (ok none) q fresh h =
      carried IsSettled (settle t) u (settle-IsSettled t fresh) h
  pinged-IsSettled t u (ok (some v)) q fresh h = elim (Result-cases (received lib t v)) [
    | inl (w, e) ↦
        carried IsSettled (settle w) u (settle-IsSettled w (received-IsFresh t w v q fresh e))
          (ap (pinged_with t) (sym e) ∙ h)
    | inr (x, e) ↦ absurd (lost-err t u x (ap (pinged_with t) (sym e) ∙ h))
  ]

-- No request is refused.
abbrev pub IsAccepting : Env → Type 0
IsAccepting env =
    (h : History) (r : Request) (res : Response)
    → env.answer h r ≡ ok res
    → is_refusal res.code ≡ false

-- The clock does not go back, and a timer takes its time.
pub record IsClock (env : Env) : Type 0 where
  pub sends : (h : History) (r : Request) → env.now h ≤ env.now (sent r ∷ h)
  pub sleeps : (h : History) (d : ℕ) → env.now h + d ≤ env.now (slept (pos d) ∷ h)

module _ (env : Env) (accepting : IsAccepting env) (clock : IsClock env) where
  abbrev pub Later : {A : Type 0} → State → Result A → State → Type 0
  Later s r t = env.now s.past ≤ env.now t.past

  abbrev Answered : State → Result Response → State → Type 0
  Answered s (ok res) t = (env.now s.past ≤ env.now t.past) × (is_refusal res.code ≡ false)
  Answered s (err e) t = env.now s.past ≤ env.now t.past

  answered :
      (o : Result Response) (r : Request) (s : State)
      → env.answer s.past r ≡ o
      → Answered s o (record s { past = sent r ∷ s.past })
  answered (ok res) r s e = (clock.sends s.past r, accepting s.past r res e)
  answered (err _) r s e = clock.sends s.past r

  send-Answered : (r : Request) (s : State) → Ends (send env r s) (Answered s)
  unfolding send
  send-Answered r s = answered (env.answer s.past r) r s refl

  run-Answered : (r : Result Request) (s : State) → Ends ((lift r >>= send env) s) (Answered s)
  run-Answered (ok r) s = send-Answered r s
  run-Answered (err _) s = omega arith

  exchange-Answered :
      (method url : Text) (body : Option Text) (s : State)
      → Ends (exchange env method url body s) (Answered s)
  unfolding exchange
  exchange-Answered method url body s = elim (Option-cases (env.request_error method url)) [
    | inl e ↦ rw e (run-Answered (run_interceptors s.client.interceptors _) s)
    | inr (x, e) ↦ rw e (omega arith)
  ]

  pub req_accepted-ends :
      (f : ℕ) (method path : Text) (body : Option Text) (wants : Bool) (s : State)
      → Ends (req env (suc f) method path body wants s) (Later s)
  unfolding req request_step
  req_accepted-ends f method path body wants s =
      Ends-bind (exchange env method _ body) _ s (Answered s) (Later s)
        (exchange-Answered method _ body s) (λ res t q. rw (q.1) q.0) (λ e t q. q)

  pub get-ends :
      (f : ℕ) (path : Text) (wants : Bool) (s : State)
      → Ends (get env (suc f) path wants s) (Later s)
  unfolding get
  get-ends f path wants s = req_accepted-ends f (codes "GET") path none wants s

  module _ (lib : TaskLib) where
    -- A ping ends, with a task or an error, and the clock does not go back meanwhile.
    pub ping-ends : (f : ℕ) (t : Task) (s : State) → Ends (ping env lib (suc f) t s) (Later s)
    unfolding ping
    ping-ends f t s =
        Ends-try (get env (suc f) (task_path t ++ codes "/status") true) _ s (Later s) (Later s)
          (get-ends f _ true s) (λ r u q. q)

    -- Where no request is refused, and the answer to a ping sets no flag of its own, a ping of a
    -- task with no flag set ends, and a task that it gives has the flags that its status and its
    -- exit status call for: completed exactly if it is stopped, else running; and a completed one
    -- is successful or failed, as its exit status has it.
    pub ping-IsSettled :
        IsTaskLib lib
        → (f : ℕ) (t : Task) (s : State) → IsFresh t
        → ((r : Result (Option Json)) (u : State)
            → get env (suc f) (task_path t ++ codes "/status") true s ≡ some (r, u)
            → SetsNoFlagIfAny r)
        → Ends (ping env lib (suc f) t s) (λ r _. (u : Task) → r ≡ ok u → IsSettled u)
    unfolding ping
    ping-IsSettled good f t s fresh none_set =
        Ends-try_eq (get env (suc f) (task_path t ++ codes "/status") true) s _
          (Ends-mono _ (Later s) _ (get-ends f _ true s) (λ _ _ _. tt)) _
          (λ r u a v e. pinged-IsSettled lib good t v r (none_set r u a) fresh e)
