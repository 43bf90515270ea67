-- ===== src/Agent/Wait.antt =====
-- The wait for the guest agent.
use Prim.Native.Nat.{suc}
use go_proxmox.Prelude.{
  ℕ, ◌+◌, ◌*◌, ◌^◌, ◌≤◌, ◌<◌, ◌≡◌, refl, ◌⊎◌, inl, inr, true, false, Option, none, [], ◌∷◌, ◌++◌,
  arith, ap, ◌∙◌, sym, subst,
}
use go_proxmox.Prelude.Text.{Text, codes, has_prefix}
use go_proxmox.Prelude.Int.{two63}
use go_proxmox.Errors.{Error, Result, ok, err}
use go_proxmox.World.{Request, Response, History, sent, Env}
use go_proxmox.Client.{State}
use go_proxmox.Client.Ends.{Ends, Ends-bind, Ends-try}
use go_proxmox.Client.Response.{handle_response}
use go_proxmox.Session.{send, exchange, run_interceptors, is_refusal}
use go_proxmox.Session.Req.{req, request_step, get}
use go_proxmox.Session.Sent.{IsPlain}
use go_proxmox.Vm.{VirtualMachine}
use go_proxmox.Agent.{
  Timers, AgentLib, agent_path, os_info_of, agent_os_info, is_not_running, asked, wait_for_agent,
}
use go_proxmox.Agent.Poll.{IsPrompt, IsTicker, Tried, IsFound, poll-finds}

-- What `AgentOsInfo` makes of a response.
abbrev pub info_from : (env : Env) (lib : AgentLib) → Response → Result (lib.Info)
info_from env lib res = os_info_of lib (handle_response env res true)

abbrev Informs : (env : Env) (lib : AgentLib) → Result (lib.Info) → Type 0
Informs env lib (ok _) = Unit
Informs env lib (err e) = is_not_running env e ≡ true

abbrev Succeeds : (lib : AgentLib) → Result (lib.Info) → Type 0
Succeeds lib (ok _) = Unit
Succeeds lib (err e) = ⊥

-- The server's answer to a request for the agent's information after the history `h`: it is not
-- refused, and it is the information, or says that the agent is not running, and that only before
-- the time `up`.
abbrev Answered : (env : Env) (lib : AgentLib) → ℕ → History → Result Response → Type 0
Answered env lib up h (err _) = ⊥
Answered env lib up h (ok res) =
    (is_refusal res.code ≡ false)
    × (Succeeds lib (info_from env lib res)
        ⊎ (Informs env lib (info_from env lib res) × (env.now h < up)))

pub record IsUpFrom (env : Env) (lib : AgentLib) (v : VirtualMachine) (base : Text) (up slow : ℕ)
    : Type 0 where
  pub answers :
      (h : History) (r : Request)
      → r.url ≡ base ++ (agent_path v (codes "get-osinfo"))
      → Answered env lib up h (env.answer h r)
  pub sends :
      (h : History) (r : Request)
      → (env.now h ≤ env.now (sent r ∷ h)) × (env.now (sent r ∷ h) ≤ env.now h + slow)
  pub requests : (method url : Text) → env.request_error method url ≡ none

module _ (env : Env) (lib : AgentLib) (v : VirtualMachine) (base : Text) (up slow : ℕ)
    (serves : IsUpFrom env lib v base up slow) where
  -- The request that is sent, and what it is answered.
  abbrev Exchanged : Text → State → Result Response → State → Type 0
  Exchanged url s r t =
      (q : Request) × (q.url ≡ url)
      × (r ≡ env.answer s.past q)
      × (t.client ≡ s.client)
      × (t.past ≡ sent q ∷ s.past)

  exchange-Exchanged :
      (method url : Text) (body : Option Text) (s : State)
      → s.client.interceptors ≡ []
      → Ends (exchange env method url body s) (Exchanged url s)
  unfolding exchange send run_interceptors
  exchange-Exchanged method url body s plain =
      rw (serves.requests method url) (rw plain (_, refl, refl, refl, refl))

  abbrev Heard : State → Result (lib.Info) → State → Type 0
  Heard s r t =
      (t.client ≡ s.client)
      × (env.now s.past ≤ env.now t.past)
      × (env.now t.past ≤ env.now s.past + slow)
      × (Succeeds lib r ⊎ (Informs env lib r × (env.now s.past < up)))

  heard :
      (s : State) (res : Response) (t : State)
      → Exchanged (base ++ agent_path v (codes "get-osinfo")) s (ok res) t
      → (is_refusal res.code ≡ false) × Heard s (info_from env lib res) t
  heard s res t (q, at, e, same, past) =
      let (accepted, says) =
        subst (Answered env lib up s.past) (sym e) (serves.answers s.past q at) in
      let (from, to) = serves.sends s.past q in
      let there = ap env.now past in
      (accepted, (same, omega (arith, from, there), omega (arith, to, there), says))

  not_lost :
      (s : State) (e : Error) (t : State)
      → Exchanged (base ++ agent_path v (codes "get-osinfo")) s (err e) t
      → ⊥
  not_lost s e t (q, at, x, same, past) =
      subst (Answered env lib up s.past) (sym x) (serves.answers s.past q at)

  get-Heard :
      (f : ℕ) (s : State)
      → IsPlain base s
      → Ends
          (get env (suc f) (agent_path v (codes "get-osinfo")) true s)
          (λ r t. Heard s (os_info_of lib r) t)
  unfolding get req request_step has_prefix
  get-Heard f s (at, plain) =
      Ends-bind (exchange env (codes "GET") _ none) _ s
        (Exchanged (base ++ agent_path v (codes "get-osinfo")) s)
        (λ r t. Heard s (os_info_of lib r) t)
        (subst
          (λ b.
            Ends (exchange env (codes "GET") (b ++ agent_path v (codes "get-osinfo")) none s)
              (Exchanged (base ++ agent_path v (codes "get-osinfo")) s))
          (sym at) (exchange-Exchanged (codes "GET") _ none s plain))
        (λ res t q. let (accepted, h) = heard s res t q in rw accepted h)
        (λ e t q. absurd (not_lost s e t q))

  agent_os_info-Heard :
      (timers : Timers) (f rounds : ℕ) (s : State)
      → IsPlain base s
      → Ends (agent_os_info env timers (suc f) rounds lib v s) (Heard s)
  unfolding agent_os_info
  agent_os_info-Heard timers f rounds s h =
      Ends-bind (get env (suc f) (agent_path v (codes "get-osinfo")) true) _ s
        (λ r t. Heard s (os_info_of lib r) t) (Heard s) (get-Heard f s h) (λ a t q. q) (λ e t q. q)

  module _ (timers : Timers) (f rounds late : ℕ) (prompt : IsPrompt env late)
      (ticker : IsTicker timers (10 ^ 9)) where
    kept : (s t : State) → t.client ≡ s.client → IsPlain base s → IsPlain base t
    kept s t e h = (ap (λ c. c.base_url) e ∙ h.0, ap (λ c. c.interceptors) e ∙ h.1)

    asked-Tried :
        (s : State) (r : Result (lib.Info)) (t : State)
        → IsPlain base s
        → Heard s r t
        → Ends (asked env timers (suc f) rounds lib v r t) (Tried env (IsPlain base) up slow s)
    asked-Tried s (ok i) t h q = tt
    asked-Tried s (err e) t h (same, from, to, inl never) = absurd never
    asked-Tried s (err e) t h (same, from, to, inr (not_running, early)) =
        rw not_running (kept s t same h, early, from, to)

    -- WaitForAgent ends without an error if the agent is up in time. The conditions: the server
    -- refuses no request for the agent's information and answers each with it, or, before a time,
    -- with an error whose text says that the agent is not running; a request takes at most a
    -- certain time, a sleep takes at most so much longer than asked, and the ticker ticks each
    -- second or where it was held up within a second; the client has no interceptors; the wait is
    -- shorter than 2^63 nanoseconds and longer than it takes the agent to be up, a second, a
    -- sleep's delay and a request together; and the wait may make the rounds that reach the time
    -- when the agent is up.
    pub wait_for_agent-IsFound :
        (seconds : ℕ) (s : State)
        → IsPlain base s
        → seconds * 10 ^ 9 < two63
        → up + 10 ^ 9 + late + slow < env.now s.past + seconds * 10 ^ 9
        → up ≤ env.now s.past + 10 ^ 9 + rounds * 10 ^ 9
        → Ends (wait_for_agent env timers (suc f) (suc (suc rounds)) lib v seconds s) IsFound
    unfolding wait_for_agent
    wait_for_agent-IsFound seconds s h bound time enough =
        poll-finds env timers (10 ^ 9) late prompt ticker _ (IsPlain base) kept up slow
          (λ u g.
            Ends-try (agent_os_info env timers (suc f) (suc (suc rounds)) lib v) _ u (Heard u)
              (Tried env (IsPlain base) up slow u)
              (agent_os_info-Heard timers f (suc (suc rounds)) u g)
              (λ r t q. asked-Tried u r t g q))
          rounds seconds s h bound time enough
