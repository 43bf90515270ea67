-- ===== src/Client/Monad.antt =====
-- The client's state, and actions on it. `none` means that the fuel ran out.
use go_proxmox.Prelude.{ℕ, Bool, Option, none, some, List}
use go_proxmox.Prelude.Text.{Text}
use go_proxmox.Errors.{Error, Result, ok, err}
use go_proxmox.World.{Request, Credentials, Session, History}

-- `func(*http.Request) error`, with the request as it leaves it.
abbrev pub Interceptor : Type 0
Interceptor = Request → Result Request

-- `Client`, without its transport (Options.antt) and its logger. The zero time is 0.
pub record Client : Type 0 where
  pub user_agent : Text
  pub base_url : Text
  pub token : Text
  pub credentials : Option Credentials
  pub session : Option Session
  pub interceptors : List (Option Interceptor)
  pub session_expires_at : ℕ
  pub otp : Text
  pub default_realm : Text
  pub eager_auth : Bool

pub record State : Type 0 where
  pub client : Client
  pub past : History

abbrev pub Action : Type 0 → Type 0
Action A = State → Option (Result A × State)

infixl 5 ◌>>=◌ ◌>>◌
abbrev pub ◌>>=◌ : {A B : Type 0} → Action A → (A → Action B) → Action B
◌>>=◌ m f s = elim (m s) [
  | none ↦ none
  | some (r, s') ↦ elim r [ ok a ↦ f a s' | err e ↦ some (err e, s') ]
]

abbrev pub ◌>>◌ : {A B : Type 0} → Action A → Action B → Action B
m >> k = m >>= λ _. k

module _ {A : Type 0} where
  abbrev pub pure : A → Action A
  pure a s = some (ok a, s)

  abbrev pub raise : Error → Action A
  raise e s = some (err e, s)

  abbrev pub lift : Result A → Action A
  lift r s = some (r, s)

  abbrev pub gets : (State → A) → Action A
  gets f s = some (ok (f s), s)

  -- `if err := m; err != nil { … }`: the error is handed on as a value.
  abbrev pub try : Action A → Action (Result A)
  try m s = elim (m s) [ none ↦ none | some (r, s') ↦ some (ok r, s') ]

abbrev pub modify : (Client → Client) → Action (Unit {0})
modify f s = some (ok tt, record s { client = f s.client })
