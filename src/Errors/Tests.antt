-- ===== src/Errors/Tests.antt =====
-- Runs of the laws on errors.
use go_proxmox.Prelude.{[], ◌≡◌, ◌↔◌, true}
use go_proxmox.Prelude.Text.{codes}
use go_proxmox.Errors.{Error, wrapped, status_error, no_cause, not_found, errors_is}
use go_proxmox.Errors.Chain.{Reaches, errors_is_iff}

abbrev lookup_failed : Error
lookup_failed = wrapped (codes "get vm: ") (status_error 404 [] [] [] no_cause)

errors_is_example : (errors_is lookup_failed not_found ≡ true) ↔ Reaches not_found lookup_failed
errors_is_example = errors_is_iff lookup_failed not_found
