-- ===== src/Client/Tests.antt =====
-- Runs of the laws on responses.
use go_proxmox.Prelude.{◌≡◌, true, false, Option, none, [], is_some}
use go_proxmox.Prelude.Text.{codes}
use go_proxmox.Errors.{message, ok, err}
use go_proxmox.Json.{Json}
use go_proxmox.World.{Env, Response}
use go_proxmox.Client.Response.{is_failure, handle_response}
use go_proxmox.Client.Outcome.{Reports, handle_response_lem}

abbrev bad_request_env : Env
bad_request_env = record {
  answer = λ h r. err (message []);
  now = λ h. 0;
  request_error = λ m u. none;
  parse = λ t. ok Json.null;
  parse_object = λ t. ok [];
  render = λ j. [];
  render_credentials = λ c. [];
  decode_session = λ old v. (none, old);
  status_text = λ c. [];
  quote = λ t. t;
}

abbrev bad_parameter : Response
bad_parameter = record {
  code = 400;
  status = codes "400 Parameter verification failed.";
  headers = [];
  body = codes "{}";
  read_error = none;
}

handle_response_example :
    (is_failure 400 ≡ true
      → Reports bad_parameter (handle_response bad_request_env bad_parameter true))
    × ((a : Option Json)
        → handle_response bad_request_env bad_parameter true ≡ ok a
        → (is_failure 400 ≡ false) × ((bad_parameter.read_error ≡ none) × (is_some a ≡ true)))
handle_response_example = handle_response_lem bad_request_env bad_parameter true
