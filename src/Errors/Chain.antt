-- ===== src/Errors/Chain.antt =====
-- `errors.Is` decides whether the error's tree reaches a target.
use go_proxmox.Prelude.{
  ℕ, ◌≡◌, ◌↔◌, inl, inr, true, arith, ◌==◌, ||-eq-true_iff, ==_refl, Bool-cases,
}
use go_proxmox.Prelude.Text.{Text}
use go_proxmox.Errors.{
  Sentinel, address, not_found, not_authorized, unexpected_shape, Error, sentinel, message, wrapped,
  wrapped_two, status_error, shape_error, Cause, no_cause, because, status_error_is, errors_is,
  cause_is,
}

-- The HTTP codes that stand for a sentinel.
pub data CodeMeans : ℕ → Sentinel → Type 0 where
  missing : {code : ℕ} → code ≡ 404 → CodeMeans code not_found
  unauthorized : {code : ℕ} → code ≡ 401 → CodeMeans code not_authorized
  forbidden : {code : ℕ} → code ≡ 403 → CodeMeans code not_authorized

-- The tree of an error reaches a target: at the error, by the code it carries, or below it.
pub data Reaches (t : Sentinel) : Error → Type 0 where
  here : {s : Sentinel} → s ≡ t → Reaches t (sentinel s)
  by_code :
      {code : ℕ} {status body msg : Text} {cause : Cause}
      → CodeMeans code t
      → Reaches t (status_error code status body msg cause)
  below_status :
      {code : ℕ} {status body msg : Text} {e : Error}
      → Reaches t e
      → Reaches t (status_error code status body msg (because e))
  below : {m : Text} {e : Error} → Reaches t e → Reaches t (wrapped m e)
  first : {m n : Text} {e f : Error} → Reaches t e → Reaches t (wrapped_two m e n f)
  second : {m n : Text} {e f : Error} → Reaches t f → Reaches t (wrapped_two m e n f)
  shape :
      {typ field want got : Text}
      → t ≡ unexpected_shape
      → Reaches t (shape_error typ field want got)

address_injective : (s t : Sentinel) → address s ≡ address t → s ≡ t
address_injective s t h = ground arith

status_error_is_sound : (code : ℕ) (t : Sentinel) → status_error_is code t ≡ true → CodeMeans code t
unfolding status_error_is
status_error_is_sound code Sentinel.not_found h = missing (ground arith)
status_error_is_sound code Sentinel.not_authorized h = elim (Bool-cases (code == 401)) [
  | inl e ↦ unauthorized (ground arith)
  | inr e ↦ forbidden (ground arith)
]
status_error_is_sound code _ h = cc

status_error_is_complete :
    {code : ℕ} {t : Sentinel} → CodeMeans code t → status_error_is code t ≡ true
unfolding status_error_is
status_error_is_complete (missing e) = ground arith
status_error_is_complete (unauthorized e) = ground arith
status_error_is_complete (forbidden e) = ground arith

mutual
  unfolding errors_is

  errors_is_sound : (e : Error) (t : Sentinel) → errors_is e t ≡ true → Reaches t e
  errors_is_sound (sentinel s) t h = here (address_injective s t (ground arith))
  errors_is_sound (message m) t h = cc
  errors_is_sound (wrapped m e) t h = below (errors_is_sound e t h)
  errors_is_sound (wrapped_two m e n f) t h = elim ((||-eq-true_iff _ _).0 h) [
    | inl p ↦ first (errors_is_sound e t p)
    | inr p ↦ second (errors_is_sound f t p)
  ]
  errors_is_sound (status_error code status body msg cause) t h = elim ((||-eq-true_iff _ _).0 h) [
    | inl p ↦ by_code (status_error_is_sound code t p)
    | inr p ↦ cause_is_sound cause t p
  ]
  errors_is_sound (shape_error typ field want got) t h =
      shape (address_injective t unexpected_shape (ground arith))

  cause_is_sound :
      {code : ℕ} {status body msg : Text} (cause : Cause) (t : Sentinel)
      → cause_is cause t ≡ true
      → Reaches t (status_error code status body msg cause)
  cause_is_sound no_cause t h = cc
  cause_is_sound (because e) t h = below_status (errors_is_sound e t h)

errors_is_complete : {t : Sentinel} {e : Error} → Reaches t e → errors_is e t ≡ true
unfolding errors_is
errors_is_complete (here {s} p) = rw p (==_refl _)
errors_is_complete (by_code p) = ground (arith, status_error_is_complete p)
errors_is_complete (below_status p) = ground (arith, errors_is_complete p)
errors_is_complete (below p) = errors_is_complete p
errors_is_complete (first p) = ground (arith, errors_is_complete p)
errors_is_complete (second p) = ground (arith, errors_is_complete p)
errors_is_complete (shape p) = rw p (==_refl (address unexpected_shape))

-- errors.Is holds of an error and a sentinel exactly when the error's tree reaches that sentinel:
-- it is the sentinel, or a StatusError with a code that means it, or a ShapeError where the
-- sentinel is ErrUnexpectedShape, or it wraps such an error at any depth.
pub errors_is_iff : (e : Error) (t : Sentinel) → (errors_is e t ≡ true) ↔ Reaches t e
errors_is_iff e t = (errors_is_sound e t, errors_is_complete)
