-- ===== src/Tasks/Sample.antt =====
-- A server and tasks for the runs of the laws.
use go_proxmox.Prelude.{ℕ, ◌+◌, refl, false, none, [], ◌∷◌, arith, ap, sym}
use go_proxmox.Prelude.Text.{codes}
use go_proxmox.Prelude.Int.{pos, negsuc}
use go_proxmox.Errors.{Result, ok, err}
use go_proxmox.Json.{Json}
use go_proxmox.World.{Response, History, sent, slept, Env}
use go_proxmox.Client.{State}
use go_proxmox.Session.{is_refusal}
use go_proxmox.Tasks.{Task, TaskLib, blank_task}
use go_proxmox.Tasks.Ping.{carried, IsFresh, IsTaskLib, IsAccepting, IsClock}

abbrev pub elapsed : History → ℕ
elapsed [] = 0
elapsed (sent _ ∷ h) = elapsed h
elapsed (slept (pos d) ∷ h) = d + elapsed h
elapsed (slept (negsuc _) ∷ h) = elapsed h

abbrev pub fine : Response
fine = record {
  code = 200;
  status = codes "200 OK";
  headers = [];
  body = codes "{}";
  read_error = none;
}

abbrev pub task_env : Env
task_env = record {
  answer = λ h r. ok fine;
  now = elapsed;
  request_error = λ m u. none;
  parse = λ t. ok Json.null;
  parse_object = λ t. ok [];
  render = λ j. [];
  render_credentials = λ c. [];
  decode_session = λ old v. (none, old);
  status_text = λ c. [];
  quote = λ t. t;
}

abbrev code_of : Result Response → ℕ
code_of (ok res) = res.code
code_of (err _) = 200

pub task_env-IsAccepting : IsAccepting task_env
task_env-IsAccepting h r res e = ap (λ x. is_refusal (code_of x)) (sym e)

pub task_env-IsClock : IsClock task_env
task_env-IsClock = record { sends = λ h r. omega arith; sleeps = λ h d. omega arith }

abbrev pub running_task : Task
running_task = record (blank_task (codes "UPID:pve1")) { status = codes "running" }

-- Every decoded task runs.
abbrev pub task_lib : TaskLib
task_lib = record { struct_decode = λ v. ok running_task; copy = λ t u. u }

pub running_task-IsFresh : IsFresh running_task
running_task-IsFresh = record {
  not_completed = refl;
  not_running = refl;
  not_failed = refl;
  not_successful = refl;
}

pub task_lib-IsTaskLib : IsTaskLib task_lib
task_lib-IsTaskLib = record {
  decodes = λ v t n e. carried IsFresh running_task t running_task-IsFresh e;
  copies = λ t u h. h;
}

abbrev pub start_state : State
start_state = record {
  client = record {
    user_agent = [];
    base_url = codes "https://pve1:8006/api2/json";
    token = [];
    credentials = none;
    session = none;
    interceptors = [];
    session_expires_at = 0;
    otp = [];
    default_realm = [];
    eager_auth = false;
  };
  past = [];
}
