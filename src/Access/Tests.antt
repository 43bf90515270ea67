-- ===== src/Access/Tests.antt =====
-- A run of the law on domains.
use go_proxmox.Prelude.{refl, [], arith}
use go_proxmox.Prelude.Text.{codes}
use go_proxmox.Errors.{ok}
use go_proxmox.Json.{Json}
use go_proxmox.Client.Ends.{Ends}
use go_proxmox.Session.Sample.{strict_env-DecodesSession, strict_env, with_password}
use go_proxmox.Access.{Entity, Fields, domain_update, domain_delete, domain_sync}
use go_proxmox.Access.Domains.{Guarded, domain_calls_end}

abbrev plain_fields : Fields
plain_fields = record { decode = λ j. ok j; encode = λ e. e.fields; values = λ u p. [] }

abbrev ldap : Entity
ldap = record { key = codes "ldap"; fields = Json.null }

domain_calls_example :
    Ends (domain_update strict_env 2 plain_fields ldap with_password) (
      Guarded strict_env 0 [] strict_env-DecodesSession
        (λ h. (omega arith, omega arith))
        plain_fields
        ldap
        with_password)
    × Ends (domain_delete strict_env 2 plain_fields ldap with_password) (
        Guarded strict_env 0 [] strict_env-DecodesSession
          (λ h. (omega arith, omega arith))
          plain_fields
          ldap
          with_password)
    × Ends (domain_sync strict_env 2 plain_fields ldap Json.null with_password) (
        Guarded strict_env 0 [] strict_env-DecodesSession
          (λ h. (omega arith, omega arith))
          plain_fields
          ldap
          with_password)
domain_calls_example =
    domain_calls_end strict_env 0 [] strict_env-DecodesSession (λ h. (omega arith, omega arith))
      plain_fields 0 ldap Json.null with_password refl
