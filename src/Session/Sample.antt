-- ===== src/Session/Sample.antt =====
-- A server and a client for the runs of the laws.
use go_proxmox.Prelude.{
  ℕ, ◌≢◌, Option, subst, refl, false, true, inl, inr, Bool-cases, none, some, [], ◌++◌,
  if◌then◌else◌,
}
use go_proxmox.Prelude.Text.{Text, codes, text_eq}
use go_proxmox.Errors.{Error, message, Result, ok, err}
use go_proxmox.Prelude.Map.{lookup}
use go_proxmox.Client.Response.{handle_response, payload}
use go_proxmox.Json.{Json, Members}
use go_proxmox.World.{Response, Credentials, Session, Env}
use go_proxmox.Client.{State}
use go_proxmox.Session.{ticket_path}
use go_proxmox.Session.Steps.{DecodesValues, AnswersLogins, DecodesSession}

abbrev pub site : Text
site = codes "https://pve1:8006/api2/json"

abbrev pub reply : ℕ → Response
reply code = record { code = code; status = []; headers = []; body = codes "{}"; read_error = none }

abbrev pub a_session : Session
a_session = record {
  username = codes "root@pam";
  csrf_prevention_token = codes "csrf";
  cap = [];
  cluster_name = [];
  ticket = codes "PVE:root@pam:1";
}

-- A session's object, as encoding/json reads one: null is a nil session, and no other value is one.
abbrev pub read_session : Option Session → Json → Option Error × Option Session
read_session old Json.null = (none, none)
read_session old (Json.object _) = (none, some a_session)
read_session old _ = (some (message (codes "json: cannot unmarshal")), old)

-- A server that lets anyone log in, with an empty object for a session, and refuses everything else.
abbrev pub strict_env : Env
strict_env = record {
  answer = λ h r. if text_eq r.url (site ++ ticket_path) then ok (reply 200) else ok (reply 401);
  now = λ h. 0;
  request_error = λ m u. none;
  parse = λ t. ok (Json.object Members.end);
  parse_object = λ t. ok [];
  render = λ j. [];
  render_credentials = λ c. [];
  decode_session = read_session;
  status_text = λ c. [];
  quote = λ t. t;
}

abbrev pub root_login : Credentials
root_login = record {
  username = codes "root@pam";
  password = codes "secret";
  otp = [];
  path = [];
  privs = [];
  realm = [];
}

abbrev pub with_password : State
with_password = record {
  client = record {
    user_agent = [];
    base_url = site;
    token = [];
    credentials = some root_login;
    session = none;
    interceptors = [];
    session_expires_at = 0;
    otp = [];
    default_realm = [];
    eager_auth = false;
  };
  past = [];
}

strict_env-DecodesValues : DecodesValues strict_env
strict_env-DecodesValues old Json.null h e = absurd (h refl)
strict_env-DecodesValues old (Json.object _) h e = refl
strict_env-DecodesValues old (Json.boolean _) h e = cc
strict_env-DecodesValues old (Json.number _) h e = cc
strict_env-DecodesValues old (Json.string _) h e = cc
strict_env-DecodesValues old (Json.array _) h e = cc

-- Neither answer of the server is accepted with null.
accepted : handle_response strict_env (reply 200) true ≢ ok (some Json.null)
unfolding handle_response payload lookup
accepted = cc

refused : handle_response strict_env (reply 401) true ≢ ok (some Json.null)
unfolding handle_response payload lookup
refused = cc

abbrev NotNull : Result Response → Type 0
NotNull (ok res) = handle_response strict_env res true ≢ ok (some Json.null)
NotNull (err _) = Unit

strict_env-AnswersLogins : AnswersLogins [] strict_env
strict_env-AnswersLogins h base body headers r res e a =
    subst NotNull a (elim (Bool-cases (text_eq r.url (site ++ ticket_path))) [
      | inl y ↦ rw y accepted
      | inr n ↦ rw n refused
    ])

pub strict_env-DecodesSession : DecodesSession strict_env
strict_env-DecodesSession = (strict_env-DecodesValues, strict_env-AnswersLogins)
