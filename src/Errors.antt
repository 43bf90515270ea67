-- ===== src/Errors.antt =====
-- Errors as values: the sentinels and StatusError of proxmox.go, the wrapping by fmt.Errorf, and
-- how package errors walks a chain. shape.go's ShapeError is here too.
pub mod Chain
mod Tests
pub mod Decimal
use go_proxmox.Prelude.{ℕ, Bool, true, false, ◌||◌, ◌++◌, ◌∷◌, [], List, if◌then◌else◌, ◌==◌}
use go_proxmox.Prelude.Text.{Text, codes, is_empty, trim_space}
use Decimal.{decimal}

-- The package's error variables.
pub data Sentinel : Type 0 where
  not_authorized session_exists no_session timed_out not_found noop : Sentinel
  api_token_web_socket_unsupported unexpected_shape firewall_rule_no_parent : Sentinel

abbrev pub sentinel_text : Sentinel → Text
sentinel_text not_authorized = codes "not authorized to access endpoint"
sentinel_text session_exists = codes "session already exists"
sentinel_text no_session = codes "no current session to refresh"
sentinel_text timed_out = codes "the operation has timed out"
sentinel_text not_found = codes "unable to find the item you are looking for"
sentinel_text noop = codes "nothing to do"
sentinel_text api_token_web_socket_unsupported =
    codes "proxmox does not accept API tokens for vncwebsocket; use WithCredentials or WithSession"
sentinel_text unexpected_shape = codes "unexpected shape in a PVE response"
sentinel_text firewall_rule_no_parent =
    codes
      "firewall rule has no parent context; obtain via Node/VirtualMachine/Container.FirewallRule"

-- Each variable is a pointer of its own.
abbrev pub address : Sentinel → ℕ
address not_authorized = 0
address session_exists = 1
address no_session = 2
address timed_out = 3
address not_found = 4
address noop = 5
address api_token_web_socket_unsupported = 6
address unexpected_shape = 7
address firewall_rule_no_parent = 8

mutual
  -- `wrapped` is `%w` behind a prefix, `wrapped_two` two of them in one message; `message` is any
  -- error that wraps nothing and is none of the sentinels.
  pub data Error : Type 0 where
    sentinel : Sentinel → Error
    message : Text → Error
    wrapped : Text → Error → Error
    wrapped_two : Text → Error → Text → Error → Error
    status_error : ℕ → Text → Text → Text → Cause → Error
    shape_error : Text → Text → Text → Text → Error

  -- StatusError's field `cause`, which may be nil.
  pub data Cause : Type 0 where
    no_cause : Cause
    because : Error → Cause

pub data Result {ℓ} (A : Type ℓ) : Type ℓ where
  ok : A → Result A
  err : Error → Result A

-- `(e *StatusError) Is(target)`.
unfoldable pub status_error_is : ℕ → Sentinel → Bool
status_error_is code not_found = code == 404
status_error_is code not_authorized = code == 401 || code == 403
status_error_is code _ = false

-- `errors.Is(err, target)` for a target among the sentinels.
unfoldable mutual
  unfolding status_error_is

  pub errors_is : Error → Sentinel → Bool
  errors_is (sentinel s) t = address s == address t
  errors_is (message m) t = false
  errors_is (wrapped m e) t = errors_is e t
  errors_is (wrapped_two m e n f) t = errors_is e t || errors_is f t
  errors_is (status_error code status body msg cause) t = status_error_is code t || cause_is cause t
  errors_is (shape_error typ field want got) t = address unexpected_shape == address t

  pub cause_is : Cause → Sentinel → Bool
  cause_is no_cause t = false
  cause_is (because e) t = errors_is e t

unfoldable pub is_not_authorized : Error → Bool
is_not_authorized e = errors_is e not_authorized

unfoldable pub is_timeout : Error → Bool
is_timeout e = errors_is e timed_out

unfoldable pub is_not_found : Error → Bool
is_not_found e = errors_is e not_found

unfoldable pub is_err_noop : Error → Bool
is_err_noop e = errors_is e noop

-- `err.Error()`. The texts of package net/http's codes and the quoting of `%q` are parameters.
module _ (status_text : ℕ → Text) (quote : Text → Text) where
  unfoldable pub status_error_text : ℕ → Text → Text → Text
  status_error_text code status msg =
      if is_empty msg
      then (if is_empty status
          then trim_space (decimal code ++ (b' ' ∷ status_text code))
          else status)
      else msg

  unfoldable pub error_text : Error → Text
  unfolding status_error_text
  error_text (sentinel s) = sentinel_text s
  error_text (message m) = m
  error_text (wrapped m e) = m ++ error_text e
  error_text (wrapped_two m e n f) = m ++ (error_text e ++ (n ++ error_text f))
  error_text (status_error code status body msg cause) = status_error_text code status msg
  error_text (shape_error typ field want got) =
      codes "proxmox: decode "
      ++ (typ
          ++ (codes ": field "
              ++ (quote field ++ (codes " is " ++ (got ++ (codes ", want " ++ want))))))
