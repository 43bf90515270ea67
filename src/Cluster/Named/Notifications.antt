-- ===== src/Cluster/Named/Notifications.antt =====
-- cluster_notifications.go: matchers, targets and the endpoints of four kinds.
use go_proxmox.Prelude.{ℕ, Option, none, ◌++◌, if◌then◌else◌, false}
use go_proxmox.Prelude.Text.{Text, codes, is_empty}
use go_proxmox.Errors.{message}
use go_proxmox.Json.{Json}
use go_proxmox.World.{Env}
use go_proxmox.Client.{Action, raise}
use go_proxmox.Session.Req.{post}
use go_proxmox.Containers.Calls.{Values, read}
use go_proxmox.Cluster.Named.{TextFields, read_named, create_named, update_named, delete_named}

module _ (env : Env) (calls : ℕ) (lib : Values) (fields : TextFields lib) where
  unfoldable pub notifications : Action lib.Value
  unfolding read
  notifications =
      read env calls lib (codes "/cluster/notifications") (codes "ClusterNotificationIndex")

  unfoldable pub notification_matcher_fields : Action lib.Value
  unfolding read
  notification_matcher_fields =
      read env calls lib (codes "/cluster/notifications/matcher-fields")
        (codes "[]*ClusterNotificationMatcherField")

  unfoldable pub notification_matcher_field_values : Action lib.Value
  unfolding read
  notification_matcher_field_values =
      read env calls lib (codes "/cluster/notifications/matcher-field-values")
        (codes "[]*ClusterNotificationMatcherFieldValue")

  unfoldable pub notification_targets : Action lib.Value
  unfolding read
  notification_targets =
      read env calls lib (codes "/cluster/notifications/targets")
        (codes "[]*ClusterNotificationTarget")

  unfoldable pub test_notification_target : Text → Action (Option Json)
  test_notification_target name =
      if is_empty name
      then raise (message (codes "notification target name can not be empty"))
      else post env calls (codes "/cluster/notifications/targets/" ++ (name ++ codes "/test")) none
          false

  unfoldable pub notification_matchers : Action lib.Value
  unfolding read
  notification_matchers =
      read env calls lib (codes "/cluster/notifications/matchers")
        (codes "[]*ClusterNotificationMatcher")

  unfoldable pub notification_matcher : Text → Action lib.Value
  unfolding read_named
  notification_matcher =
      read_named env calls lib fields (codes "notification matcher name can not be empty")
        (codes "ClusterNotificationMatcher") (codes "Name")
        (codes "/cluster/notifications/matchers/")

  unfoldable pub new_notification_matcher : Option lib.Value → Action (Option Json)
  unfolding create_named
  new_notification_matcher =
      create_named env calls lib fields (codes "notification matcher name can not be empty")
        (codes "Name") (codes "/cluster/notifications/matchers")

  unfoldable pub update_notification_matcher : Text → Option lib.Value → Action (Option Json)
  unfolding update_named
  update_notification_matcher =
      update_named env calls lib fields (codes "notification matcher name can not be empty")
        (codes "ClusterNotificationMatcherOptions") (codes "/cluster/notifications/matchers/")

  unfoldable pub delete_notification_matcher : Text → Action (Option Json)
  unfolding delete_named
  delete_notification_matcher =
      delete_named env calls lib fields (codes "notification matcher name can not be empty")
        (codes "/cluster/notifications/matchers/")

  unfoldable pub notification_gotify_endpoints : Action lib.Value
  unfolding read
  notification_gotify_endpoints =
      read env calls lib (codes "/cluster/notifications/endpoints/gotify")
        (codes "[]*ClusterNotificationGotifyEndpoint")

  unfoldable pub notification_gotify_endpoint : Text → Action lib.Value
  unfolding read_named
  notification_gotify_endpoint =
      read_named env calls lib fields (codes "gotify endpoint name can not be empty")
        (codes "ClusterNotificationGotifyEndpoint") (codes "Name")
        (codes "/cluster/notifications/endpoints/gotify/")

  unfoldable pub new_notification_gotify_endpoint : Option lib.Value → Action (Option Json)
  unfolding create_named
  new_notification_gotify_endpoint =
      create_named env calls lib fields (codes "gotify endpoint name can not be empty")
        (codes "Name") (codes "/cluster/notifications/endpoints/gotify")

  unfoldable pub update_notification_gotify_endpoint :
      Text → Option lib.Value → Action (Option Json)
  unfolding update_named
  update_notification_gotify_endpoint =
      update_named env calls lib fields (codes "gotify endpoint name can not be empty")
        (codes "ClusterNotificationGotifyOptions")
        (codes "/cluster/notifications/endpoints/gotify/")

  unfoldable pub delete_notification_gotify_endpoint : Text → Action (Option Json)
  unfolding delete_named
  delete_notification_gotify_endpoint =
      delete_named env calls lib fields (codes "gotify endpoint name can not be empty")
        (codes "/cluster/notifications/endpoints/gotify/")

  unfoldable pub notification_sendmail_endpoints : Action lib.Value
  unfolding read
  notification_sendmail_endpoints =
      read env calls lib (codes "/cluster/notifications/endpoints/sendmail")
        (codes "[]*ClusterNotificationSendmailEndpoint")

  unfoldable pub notification_sendmail_endpoint : Text → Action lib.Value
  unfolding read_named
  notification_sendmail_endpoint =
      read_named env calls lib fields (codes "sendmail endpoint name can not be empty")
        (codes "ClusterNotificationSendmailEndpoint") (codes "Name")
        (codes "/cluster/notifications/endpoints/sendmail/")

  unfoldable pub new_notification_sendmail_endpoint : Option lib.Value → Action (Option Json)
  unfolding create_named
  new_notification_sendmail_endpoint =
      create_named env calls lib fields (codes "sendmail endpoint name can not be empty")
        (codes "Name") (codes "/cluster/notifications/endpoints/sendmail")

  unfoldable pub update_notification_sendmail_endpoint :
      Text → Option lib.Value → Action (Option Json)
  unfolding update_named
  update_notification_sendmail_endpoint =
      update_named env calls lib fields (codes "sendmail endpoint name can not be empty")
        (codes "ClusterNotificationSendmailOptions")
        (codes "/cluster/notifications/endpoints/sendmail/")

  unfoldable pub delete_notification_sendmail_endpoint : Text → Action (Option Json)
  unfolding delete_named
  delete_notification_sendmail_endpoint =
      delete_named env calls lib fields (codes "sendmail endpoint name can not be empty")
        (codes "/cluster/notifications/endpoints/sendmail/")

  unfoldable pub notification_smtp_endpoints : Action lib.Value
  unfolding read
  notification_smtp_endpoints =
      read env calls lib (codes "/cluster/notifications/endpoints/smtp")
        (codes "[]*ClusterNotificationSMTPEndpoint")

  unfoldable pub notification_smtp_endpoint : Text → Action lib.Value
  unfolding read_named
  notification_smtp_endpoint =
      read_named env calls lib fields (codes "smtp endpoint name can not be empty")
        (codes "ClusterNotificationSMTPEndpoint") (codes "Name")
        (codes "/cluster/notifications/endpoints/smtp/")

  unfoldable pub new_notification_smtp_endpoint : Option lib.Value → Action (Option Json)
  unfolding create_named
  new_notification_smtp_endpoint =
      create_named env calls lib fields (codes "smtp endpoint name can not be empty") (codes "Name")
        (codes "/cluster/notifications/endpoints/smtp")

  unfoldable pub update_notification_smtp_endpoint : Text → Option lib.Value → Action (Option Json)
  unfolding update_named
  update_notification_smtp_endpoint =
      update_named env calls lib fields (codes "smtp endpoint name can not be empty")
        (codes "ClusterNotificationSMTPOptions") (codes "/cluster/notifications/endpoints/smtp/")

  unfoldable pub delete_notification_smtp_endpoint : Text → Action (Option Json)
  unfolding delete_named
  delete_notification_smtp_endpoint =
      delete_named env calls lib fields (codes "smtp endpoint name can not be empty")
        (codes "/cluster/notifications/endpoints/smtp/")

  unfoldable pub notification_webhook_endpoints : Action lib.Value
  unfolding read
  notification_webhook_endpoints =
      read env calls lib (codes "/cluster/notifications/endpoints/webhook")
        (codes "[]*ClusterNotificationWebhookEndpoint")

  unfoldable pub notification_webhook_endpoint : Text → Action lib.Value
  unfolding read_named
  notification_webhook_endpoint =
      read_named env calls lib fields (codes "webhook endpoint name can not be empty")
        (codes "ClusterNotificationWebhookEndpoint") (codes "Name")
        (codes "/cluster/notifications/endpoints/webhook/")

  unfoldable pub new_notification_webhook_endpoint : Option lib.Value → Action (Option Json)
  unfolding create_named
  new_notification_webhook_endpoint =
      create_named env calls lib fields (codes "webhook endpoint name can not be empty")
        (codes "Name") (codes "/cluster/notifications/endpoints/webhook")

  unfoldable pub update_notification_webhook_endpoint :
      Text → Option lib.Value → Action (Option Json)
  unfolding update_named
  update_notification_webhook_endpoint =
      update_named env calls lib fields (codes "webhook endpoint name can not be empty")
        (codes "ClusterNotificationWebhookOptions")
        (codes "/cluster/notifications/endpoints/webhook/")

  unfoldable pub delete_notification_webhook_endpoint : Text → Action (Option Json)
  unfolding delete_named
  delete_notification_webhook_endpoint =
      delete_named env calls lib fields (codes "webhook endpoint name can not be empty")
        (codes "/cluster/notifications/endpoints/webhook/")
