-- ===== src/Session/Tests.antt =====
-- Runs of the laws on sessions.
use go_proxmox.Prelude.{◌≡◌, ◌≤◌, refl, true, none, some, [], arith, length}
use go_proxmox.Prelude.Text.{codes, has_prefix}
use go_proxmox.Errors.{ok}
use go_proxmox.World.{Credentials}
use go_proxmox.Client.{State}
use go_proxmox.Client.Ends.{Ends}
use go_proxmox.Session.{session_credentials}
use go_proxmox.Session.Otp.{session_credentials_lem}
use go_proxmox.Session.Req.{req}
use go_proxmox.Session.Bound.{req-ends}
use go_proxmox.Session.Sample.{
  strict_env-DecodesSession, strict_env, with_password, root_login, site,
}
use go_proxmox.Session.Sent.{Emits, IsOf, url_at}
use go_proxmox.Session.Sent.Refused.{req-Sends}

req_example :
    Ends
      (req strict_env 2 (codes "GET") (codes "/version") none true with_password)
      (λ r t. length t.past ≤ 4)
req_example =
    req-ends strict_env [] 0 strict_env-DecodesSession (λ h. (omega arith, omega arith)) 0
      (codes "GET") (codes "/version") none true with_password refl

abbrev with_otp : State
with_otp = record with_password { client = record (with_password.client) { otp = codes "123456" } }

session_credentials_example :
    (a b : Credentials) × (session_credentials strict_env with_otp
      ≡ some (ok (some a), with_password))
    × (session_credentials strict_env with_password ≡ some (ok (some b), with_password))
    × (a.otp ≡ codes "123456")
    × (b.otp ≡ [])
    × (a.password ≡ codes "secret")
    × (a.username ≡ codes "root@pam")
session_credentials_example = session_credentials_lem strict_env with_otp root_login refl

req-Sends_example :
    Ends
      (req strict_env 2 (codes "GET") (codes "/version") none true with_password)
      (Emits site (IsOf site (codes "GET") (url_at site (codes "/version")) none) with_password)
unfolding has_prefix
req-Sends_example =
    req-Sends strict_env site refl 0 strict_env-DecodesSession (λ h. (omega arith, omega arith)) 0
      (codes "GET") (codes "/version") none true with_password (refl, refl)
