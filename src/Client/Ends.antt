-- ===== src/Client/Ends.antt =====
-- How an action ends: with a result and a state of which `P` holds.
use go_proxmox.Prelude.{◌≡◌, refl, Option, none, some}
use go_proxmox.Errors.{Error, Result, ok, err}
use go_proxmox.Client.Monad.{State, Action, ◌>>=◌, try, lift}

abbrev pub Ends : {A : Type 0} → Option (Result A × State) → (Result A → State → Type 0) → Type 0
Ends none P = ⊥
Ends (some (r, s)) P = P r s

pub Ends-bind :
    {A B : Type 0} (m : Action A) (f : A → Action B) (s : State) (P : Result A → State → Type 0)
    (Q : Result B → State → Type 0)
    → Ends (m s) P
    → ((a : A) (t : State) → P (ok a) t → Ends (f a t) Q)
    → ((e : Error) (t : State) → P (err e) t → Q (err e) t)
    → Ends ((m >>= f) s) Q
Ends-bind m f s P Q h good bad = go (m s) h
  where
    go :
        (o : Option (Result _ × State))
        → Ends o P
        → Ends
            (elim o [
              | none ↦ none
              | some (r, s') ↦ elim r [ ok a ↦ f a s' | err e ↦ some (err e, s') ]
            ])
            Q
    go none h = h
    go (some (ok a, t)) h = good a t h
    go (some (err e, t)) h = bad e t h

pub Ends-mono :
    {A : Type 0} (o : Option (Result A × State)) (P Q : Result A → State → Type 0)
    → Ends o P
    → ((r : Result A) (t : State) → P r t → Q r t)
    → Ends o Q
Ends-mono none P Q h k = h
Ends-mono (some (r, t)) P Q h k = k r t h

pub Ends-some :
    {A : Type 0} (o : Option (Result A × State)) (P : Result A → State → Type 0)
    → Ends o P
    → (r : Result A) × (s : State) × (o ≡ some (r, s)) × P r s
Ends-some none P h = absurd h
Ends-some (some (r, s)) P h = (r, s, refl, h)

-- An action whose error is handed on as a value.
pub Ends-try :
    {A B : Type 0} (m : Action A) (f : Result A → Action B) (s : State)
    (P : Result A → State → Type 0) (Q : Result B → State → Type 0)
    → Ends (m s) P
    → ((r : Result A) (t : State) → P r t → Ends (f r t) Q)
    → Ends ((try m >>= f) s) Q
Ends-try {A} {B} m f s P Q h next = go (m s) h
  where
    go :
        (o : Option (Result A × State))
        → Ends o P
        → Ends
            ((elim (elim o as (λ _. Option (Result (Result A) × State)) [
              | none ↦ none
              | some (r, s') ↦ some (ok r, s')
            ])
              as (λ _. Option (Result B × State)) [
                | none ↦ none
                | some (r, s') ↦ elim r [ ok a ↦ f a s' | err e ↦ some (err e, s') ]
              ]))
            Q
    go none h = h
    go (some (r, t)) h = next r t h

-- What an action that ends has ended with.
pub Ends-eq :
    {A : Type 0} (o : Option (Result A × State)) (P : Result A → State → Type 0)
    → Ends o P
    → Ends o (λ r s. P r s × (o ≡ some (r, s)))
Ends-eq none P h = h
Ends-eq (some (r, s)) P h = (h, refl)

abbrev pub IsTotal : {A : Type 0} → Option (Result A × State) → Type 0
IsTotal o = Ends o (λ _ _. Unit)

module _ {A B : Type 0} (m : Action A) (s : State) (Q : Result B → State → Type 0)
    (total : IsTotal (m s)) where
  pub Ends-bind_eq :
      (f : A → Action B)
      → ((a : A) (t : State) → m s ≡ some (ok a, t) → Ends (f a t) Q)
      → ((e : Error) (t : State) → m s ≡ some (err e, t) → Q (err e) t)
      → Ends ((m >>= f) s) Q
  Ends-bind_eq f good bad =
      Ends-bind m f s (λ r t. Unit × (m s ≡ some (r, t))) Q (Ends-eq (m s) (λ _ _. Unit) total)
        (λ a t q. good a t q.1) (λ e t q. bad e t q.1)

  pub Ends-try_eq :
      (f : Result A → Action B)
      → ((r : Result A) (t : State) → m s ≡ some (r, t) → Ends (f r t) Q)
      → Ends ((try m >>= f) s) Q
  Ends-try_eq f next =
      Ends-try m f s (λ r t. Unit × (m s ≡ some (r, t))) Q (Ends-eq (m s) (λ _ _. Unit) total)
        (λ r t q. next r t q.1)

-- What holds of the state after an action holds after its result is read.
pub Ends-lift :
    {A B : Type 0} (m : Action A) (k : A → Result B) (s : State) (P : State → Type 0)
    → Ends (m s) (λ _ t. P t)
    → Ends ((m >>= λ a. lift (k a)) s) (λ _ t. P t)
Ends-lift m k s P h =
    Ends-bind m (λ a. lift (k a)) s (λ _ t. P t) (λ _ t. P t) h (λ a t q. q) (λ e t q. q)
