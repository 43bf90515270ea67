-- ===== src/Client/Always.antt =====
-- What holds whenever an action ends.
use go_proxmox.Prelude.{Option, none, some}
use go_proxmox.Errors.{Error, Result, ok, err}
use go_proxmox.Client.Monad.{State, Action, ◌>>=◌, try}

-- How an action ends, if it does.
abbrev pub Always : {A : Type 0} → Option (Result A × State) → (Result A → State → Type 0) → Type 0
Always none P = Unit
Always (some (r, s)) P = P r s

pub Always-bind :
    {A B : Type 0} (m : Action A) (f : A → Action B) (s : State) (P : Result A → State → Type 0)
    (Q : Result B → State → Type 0)
    → Always (m s) P
    → ((a : A) (t : State) → P (ok a) t → Always (f a t) Q)
    → ((e : Error) (t : State) → P (err e) t → Q (err e) t)
    → Always ((m >>= f) s) Q
Always-bind m f s P Q h good bad = go (m s) h
  where
    go :
        (o : Option (Result _ × State))
        → Always o P
        → Always
            (elim o [
              | none ↦ none
              | some (r, s') ↦ elim r [ ok a ↦ f a s' | err e ↦ some (err e, s') ]
            ])
            Q
    go none h = tt
    go (some (ok a, t)) h = good a t h
    go (some (err e, t)) h = bad e t h

pub Always-mono :
    {A : Type 0} (o : Option (Result A × State)) (P Q : Result A → State → Type 0)
    → Always o P
    → ((r : Result A) (t : State) → P r t → Q r t)
    → Always o Q
Always-mono none P Q h k = tt
Always-mono (some (r, t)) P Q h k = k r t h

pub Always-try :
    {A B : Type 0} (m : Action A) (f : Result A → Action B) (s : State)
    (P : Result A → State → Type 0) (Q : Result B → State → Type 0)
    → Always (m s) P
    → ((r : Result A) (t : State) → P r t → Always (f r t) Q)
    → Always ((try m >>= f) s) Q
Always-try {A} {B} m f s P Q h next = go (m s) h
  where
    go :
        (o : Option (Result A × State))
        → Always o P
        → Always
            ((elim (elim o as (λ _. Option (Result (Result A) × State)) [
              | none ↦ none
              | some (r, s') ↦ some (ok r, s')
            ])
              as (λ _. Option (Result B × State)) [
                | none ↦ none
                | some (r, s') ↦ elim r [ ok a ↦ f a s' | err e ↦ some (err e, s') ]
              ]))
            Q
    go none h = tt
    go (some (r, t)) h = next r t h
