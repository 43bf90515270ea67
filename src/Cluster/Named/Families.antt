-- ===== src/Cluster/Named/Families.antt =====
-- What the calls on the named entries of a cluster send, family by family.
pub mod Kept
mod Tests
use Prim.Native.Nat.{suc}
use go_proxmox.Prelude.{ℕ, ◌≡◌, refl, Bool, true, false, Option, none, some, ◌++◌, if◌then◌else◌}
use go_proxmox.Prelude.Text.{Text, codes, is_empty}
use go_proxmox.Errors.{Error, message, err}
use go_proxmox.Json.{Json}
use go_proxmox.World.{Env}
use go_proxmox.Client.{State, Action, raise}
use go_proxmox.Containers.Calls.{Values, or_blank}
use go_proxmox.Firewall.Place.{SendsOnly}
use go_proxmox.Cluster.Named.{TextFields, lacks_name, body_of}
use go_proxmox.Cluster.Named.Mapping.{
  dir_mapping, new_dir_mapping, update_dir_mapping, delete_dir_mapping, pci_mapping,
  new_pci_mapping, update_pci_mapping, delete_pci_mapping, usb_mapping, new_usb_mapping,
  update_usb_mapping, delete_usb_mapping,
}
use go_proxmox.Cluster.Named.Notifications.{
  notification_matcher, new_notification_matcher, update_notification_matcher,
  delete_notification_matcher, notification_gotify_endpoint, new_notification_gotify_endpoint,
  update_notification_gotify_endpoint, delete_notification_gotify_endpoint,
  notification_sendmail_endpoint, new_notification_sendmail_endpoint,
  update_notification_sendmail_endpoint, delete_notification_sendmail_endpoint,
  notification_smtp_endpoint, new_notification_smtp_endpoint, update_notification_smtp_endpoint,
  delete_notification_smtp_endpoint, notification_webhook_endpoint,
  new_notification_webhook_endpoint, update_notification_webhook_endpoint,
  delete_notification_webhook_endpoint,
}
use go_proxmox.Cluster.Named.Metrics.{
  metric_server, new_metric_server, update_metric_server, delete_metric_server, own_path,
}

-- The families of entries that have a name.
pub data Family : Type 0 where
  dir_entries : Family
  pci_entries : Family
  usb_entries : Family
  matchers : Family
  gotify_endpoints : Family
  sendmail_endpoints : Family
  smtp_endpoints : Family
  webhook_endpoints : Family
  servers : Family

abbrev pub root_of : Family → Text
root_of dir_entries = codes "/cluster/mapping/dir"
root_of pci_entries = codes "/cluster/mapping/pci"
root_of usb_entries = codes "/cluster/mapping/usb"
root_of matchers = codes "/cluster/notifications/matchers"
root_of gotify_endpoints = codes "/cluster/notifications/endpoints/gotify"
root_of sendmail_endpoints = codes "/cluster/notifications/endpoints/sendmail"
root_of smtp_endpoints = codes "/cluster/notifications/endpoints/smtp"
root_of webhook_endpoints = codes "/cluster/notifications/endpoints/webhook"
root_of servers = codes "/cluster/metrics/server"

-- What is said of a missing name.
abbrev pub unnamed : Family → Error
unnamed dir_entries = message (codes "dir mapping id can not be empty")
unnamed pci_entries = message (codes "pci mapping id can not be empty")
unnamed usb_entries = message (codes "usb mapping id can not be empty")
unnamed matchers = message (codes "notification matcher name can not be empty")
unnamed gotify_endpoints = message (codes "gotify endpoint name can not be empty")
unnamed sendmail_endpoints = message (codes "sendmail endpoint name can not be empty")
unnamed smtp_endpoints = message (codes "smtp endpoint name can not be empty")
unnamed webhook_endpoints = message (codes "webhook endpoint name can not be empty")
unnamed servers = message (codes "metric server id can not be empty")

-- The field with the name, and the type that is sent where no options are given.
abbrev pub key_of : Family → Text
key_of dir_entries = codes "ID"
key_of pci_entries = codes "ID"
key_of usb_entries = codes "ID"
key_of matchers = codes "Name"
key_of gotify_endpoints = codes "Name"
key_of sendmail_endpoints = codes "Name"
key_of smtp_endpoints = codes "Name"
key_of webhook_endpoints = codes "Name"
key_of servers = codes "ID"

abbrev pub options_of : Family → Text
options_of dir_entries = codes "ClusterDirMappingOptions"
options_of pci_entries = codes "ClusterPCIMappingOptions"
options_of usb_entries = codes "ClusterUSBMappingOptions"
options_of matchers = codes "ClusterNotificationMatcherOptions"
options_of gotify_endpoints = codes "ClusterNotificationGotifyOptions"
options_of sendmail_endpoints = codes "ClusterNotificationSendmailOptions"
options_of smtp_endpoints = codes "ClusterNotificationSMTPOptions"
options_of webhook_endpoints = codes "ClusterNotificationWebhookOptions"
options_of servers = codes "ClusterMetricServerOptions"

module _ (env : Env) (calls : ℕ) (lib : Values) (fields : TextFields lib) where
  abbrev pub read_in : Family → Text → Action lib.Value
  read_in dir_entries = dir_mapping env calls lib fields
  read_in pci_entries = pci_mapping env calls lib fields
  read_in usb_entries = usb_mapping env calls lib fields
  read_in matchers = notification_matcher env calls lib fields
  read_in gotify_endpoints = notification_gotify_endpoint env calls lib fields
  read_in sendmail_endpoints = notification_sendmail_endpoint env calls lib fields
  read_in smtp_endpoints = notification_smtp_endpoint env calls lib fields
  read_in webhook_endpoints = notification_webhook_endpoint env calls lib fields
  read_in servers = metric_server env calls lib fields

  abbrev pub create_in : Family → Option lib.Value → Action (Option Json)
  create_in dir_entries = new_dir_mapping env calls lib fields
  create_in pci_entries = new_pci_mapping env calls lib fields
  create_in usb_entries = new_usb_mapping env calls lib fields
  create_in matchers = new_notification_matcher env calls lib fields
  create_in gotify_endpoints = new_notification_gotify_endpoint env calls lib fields
  create_in sendmail_endpoints = new_notification_sendmail_endpoint env calls lib fields
  create_in smtp_endpoints = new_notification_smtp_endpoint env calls lib fields
  create_in webhook_endpoints = new_notification_webhook_endpoint env calls lib fields
  create_in servers = new_metric_server env calls lib fields

  abbrev pub update_in : Family → Text → Option lib.Value → Action (Option Json)
  update_in dir_entries = update_dir_mapping env calls lib fields
  update_in pci_entries = update_pci_mapping env calls lib fields
  update_in usb_entries = update_usb_mapping env calls lib fields
  update_in matchers = update_notification_matcher env calls lib fields
  update_in gotify_endpoints = update_notification_gotify_endpoint env calls lib fields
  update_in sendmail_endpoints = update_notification_sendmail_endpoint env calls lib fields
  update_in smtp_endpoints = update_notification_smtp_endpoint env calls lib fields
  update_in webhook_endpoints = update_notification_webhook_endpoint env calls lib fields
  update_in servers = update_metric_server env calls lib fields

  abbrev pub delete_in : Family → Text → Action (Option Json)
  delete_in dir_entries = delete_dir_mapping env calls lib fields
  delete_in pci_entries = delete_pci_mapping env calls lib fields
  delete_in usb_entries = delete_usb_mapping env calls lib fields
  delete_in matchers = delete_notification_matcher env calls lib fields
  delete_in gotify_endpoints = delete_notification_gotify_endpoint env calls lib fields
  delete_in sendmail_endpoints = delete_notification_sendmail_endpoint env calls lib fields
  delete_in smtp_endpoints = delete_notification_smtp_endpoint env calls lib fields
  delete_in webhook_endpoints = delete_notification_webhook_endpoint env calls lib fields
  delete_in servers = delete_metric_server env calls lib fields

  -- Where a new entry is posted: a metric server under its own id, and else to the family.
  abbrev pub created_at : Family → Option lib.Value → Text
  created_at servers opts = own_path env calls lib fields opts
  created_at dir_entries _ = root_of dir_entries
  created_at pci_entries _ = root_of pci_entries
  created_at usb_entries _ = root_of usb_entries
  created_at matchers _ = root_of matchers
  created_at gotify_endpoints _ = root_of gotify_endpoints
  created_at sendmail_endpoints _ = root_of sendmail_endpoints
  created_at smtp_endpoints _ = root_of smtp_endpoints
  created_at webhook_endpoints _ = root_of webhook_endpoints

-- An error and nothing done where the test holds, and else what is said.
abbrev pub Guarded : {A : Type 0} → Bool → Error → Action A → State → Type 0 → Type 0
Guarded true e m s P = m s ≡ some (err e, s)
Guarded false e m s P = P

pub guarded :
    {A : Type 0} (b : Bool) (e : Error) (m : Action A) (s : State) (P : Action A → Type 0)
    → P m
    → Guarded b e (if b then raise e else m) s (P (if b then raise e else m))
guarded true e m s P h = refl
guarded false e m s P h = h

abbrev pub wire : Env → Option Json → Option Text
wire env none = none
wire env (some j) = some (env.render j)

module _ (env : Env) (base : Text) (f : ℕ) (lib : Values) (fields : TextFields lib) where
  -- What the four calls do where the name is missing, and what they send where it is there.
  abbrev pub Keeps : Family → Text → Option lib.Value → State → Type 0
  Keeps k name opts s =
      Guarded (is_empty name) (unnamed k) (read_in env (suc (suc f)) lib fields k name) s (
        SendsOnly base (codes "GET") (root_of k ++ (codes "/" ++ name)) none
          (read_in env (suc (suc f)) lib fields k name) s)
      × Guarded (is_empty name) (unnamed k) (update_in env (suc (suc f)) lib fields k name opts) s (
          SendsOnly base (codes "PUT") (root_of k ++ (codes "/" ++ name))
            (wire env (or_blank env (suc (suc f)) lib (options_of k) opts))
            (update_in env (suc (suc f)) lib fields k name opts) s)
      × Guarded (is_empty name) (unnamed k) (delete_in env (suc (suc f)) lib fields k name) s (
          SendsOnly base (codes "DELETE") (root_of k ++ (codes "/" ++ name)) none
            (delete_in env (suc (suc f)) lib fields k name) s)
      × Guarded (lacks_name env (suc (suc f)) lib fields (key_of k) opts) (unnamed k)
          (create_in env (suc (suc f)) lib fields k opts) s
          (SendsOnly base (codes "POST") (created_at env (suc (suc f)) lib fields k opts)
            (wire env (body_of env (suc (suc f)) lib fields opts))
            (create_in env (suc (suc f)) lib fields k opts) s)
