-- ===== src/Options.antt =====
-- options.go: the options that set a field of the client, and `NewClient` as far as they go. The
-- options on the HTTP client and its transport are in Options/Transport.antt; the eager login is not
-- modelled.
pub mod Order
pub mod Transport
use go_proxmox.Prelude.{Bool, true, Option, none, some, List, [], ◌∷◌, ◌++◌}
use go_proxmox.Prelude.Text.{Text, codes, trim_prefix}
use go_proxmox.World.{Credentials, Session}
use go_proxmox.Client.{Client, Interceptor}

-- `Option`.
abbrev pub ClientOption : Type 0
ClientOption = Client → Client

unfoldable pub with_credentials : Option Credentials → ClientOption
with_credentials credentials c = record c { credentials = credentials }

unfoldable pub with_logins : Text → Text → ClientOption
unfolding with_credentials
with_logins username password = with_credentials (
    some (record {
      username = username;
      password = password;
      otp = [];
      path = [];
      privs = [];
      realm = [];
    }))

unfoldable pub with_api_token : Text → Text → ClientOption
with_api_token token_id secret c = record c { token = token_id ++ (codes "=" ++ secret) }

unfoldable pub with_session : Text → Text → ClientOption
with_session ticket csrf c = record c {
  session = some (record {
    username = [];
    csrf_prevention_token = csrf;
    cap = [];
    cluster_name = [];
    ticket = ticket;
  });
}

unfoldable pub with_user_agent : Text → ClientOption
with_user_agent ua c = record c { user_agent = ua }

unfoldable pub with_otp : Text → ClientOption
with_otp otp c = record c { otp = otp }

unfoldable pub with_default_realm : Text → ClientOption
with_default_realm realm c = record c { default_realm = trim_prefix realm (codes "@") }

unfoldable pub with_eager_auth : ClientOption
with_eager_auth c = record c { eager_auth = true }

-- A nil function is not registered.
unfoldable pub with_request_interceptor : Option Interceptor → ClientOption
with_request_interceptor none c = c
with_request_interceptor (some fn) c = record c { interceptors = c.interceptors ++ (some fn ∷ []) }

unfoldable pub apply_all : List ClientOption → ClientOption
apply_all [] c = c
apply_all (o ∷ opts) c = apply_all opts (o c)
