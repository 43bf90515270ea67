-- ===== src/Session/Otp.antt =====
-- The credentials of a login, and the one-time password among them.
use go_proxmox.Prelude.{
  ◌≡◌, refl, true, some, [], ◌∷◌, Bool-cases, ap, ◌∙◌, inl, inr, if◌then◌else◌, ◌&&◌, not,
}
use go_proxmox.Prelude.Text.{Text, is_empty, codes, contains}
use go_proxmox.Errors.{ok}
use go_proxmox.World.{Env, Credentials}
use go_proxmox.Client.{State}
use go_proxmox.Session.{session_credentials, credentials_from, merge_otp, merge_realm}

abbrev pub spent : State → State
spent s = record s { client = record (s.client) { otp = [] } }

abbrev either : Text → Text → Text
either a b = if is_empty a then b else a

abbrev merged : Env → State → Credentials → Credentials
merged env s given = merge_realm env s.client.default_realm (merge_otp env s.client.otp given)

is_empty_nil : (t : Text) → is_empty t ≡ true → t ≡ []
is_empty_nil [] h = refl
is_empty_nil (c ∷ t) h = cc

spent_lem : (s : State) → is_empty s.client.otp ≡ true → s ≡ spent s
spent_lem s h =
    ap (λ o. record s { client = record (s.client) { otp = o } }) (is_empty_nil s.client.otp h)

one_login :
    (env : Env) (s : State) (given : Credentials)
    → s.client.credentials ≡ some given
    → session_credentials env s ≡ some (ok (some (merged env s given)), spent s)
unfolding session_credentials
one_login env s given h =
    ap (λ c. credentials_from env c s) h ∙ (elim (Bool-cases (is_empty s.client.otp)) [
      | inr e ↦ rw e
      | inl e ↦ elim (Bool-cases (is_empty s.client.default_realm)) [
        | inr k ↦ rw (e, k) refl
        | inl k ↦ rw (e, k) (ap (λ t. some (ok (some given), t)) (spent_lem s e))
      ]
    ])

merge_realm-fields :
    (env : Env) (realm : Text) (c : Credentials)
    → ((merge_realm env realm c).otp ≡ c.otp)
      × ((merge_realm env realm c).password ≡ c.password)
      × ((merge_realm env realm c).username ≡ c.username)
unfolding merge_realm
merge_realm-fields env realm c =
    elim (Bool-cases
      (not (is_empty realm) && (is_empty c.realm && not (contains c.username (codes "@"))))) [
        | inl e ↦ rw e (refl, refl, refl)
        | inr e ↦ rw e (refl, refl, refl)
      ]

merge_otp-fields :
    (env : Env) (otp : Text) (c : Credentials)
    → ((merge_otp env otp c).otp ≡ (if is_empty otp then c.otp else otp))
      × ((merge_otp env otp c).password ≡ c.password)
      × ((merge_otp env otp c).username ≡ c.username)
unfolding merge_otp
merge_otp-fields env [] c = (refl, refl, refl)
merge_otp-fields env (x ∷ otp) c = (refl, refl, refl)

-- The first login of a client with credentials is made with its one-time password, where it has
-- one, and the password is then gone: a second login is made with the one of the credentials.
-- Nothing else of the client changes, and no request is made.
pub session_credentials_lem :
    (env : Env) (s : State) (given : Credentials)
    → s.client.credentials ≡ some given
    → (a b : Credentials) × (session_credentials env s ≡ some (ok (some a), spent s))
      × (session_credentials env (spent s) ≡ some (ok (some b), spent s))
      × (a.otp ≡ (if is_empty s.client.otp then given.otp else s.client.otp))
      × (b.otp ≡ given.otp)
      × (a.password ≡ given.password)
      × (a.username ≡ given.username)
session_credentials_lem env s given h =
    let m = merge_otp-fields env s.client.otp given in
    let r = merge_realm-fields env s.client.default_realm (merge_otp env s.client.otp given) in
    let m' = merge_otp-fields env [] given in
    let r' = merge_realm-fields env s.client.default_realm (merge_otp env [] given) in
    (
      merged env s given,
      merged env (spent s) given,
      one_login env s given h,
      one_login env (spent s) given h,
      r.0 ∙ m.0,
      r'.0 ∙ m'.0,
      r.1 ∙ m.1,
      r.2 ∙ m.2,
    )
