-- ===== src/Containers/Within.antt =====
-- Where the calls on a container go, call by call.
use go_proxmox.Prelude.{ℕ, ◌≡◌, false}
use go_proxmox.Prelude.Text.{Text, codes, has_prefix}
use go_proxmox.Json.{Json}
use go_proxmox.World.{Env}
use go_proxmox.Client.{Action}
use go_proxmox.Client.Ends.{Ends}
use go_proxmox.Session.Steps.{DecodesSession, IsTimely}
use go_proxmox.Session.Sent.Scope.{IsAt, EndsWithin}
use go_proxmox.Containers.{Container, container_path}
use go_proxmox.Containers.Calls.{Values}
use go_proxmox.Containers.Scope.{container-IsRooted}

module _ (env : Env) (from : ℕ) (decodes : DecodesSession env) (timely : IsTimely from env)
    (base : Text) (is_url : has_prefix base (codes "/") ≡ false) (f : ℕ) (lib : Values)
    (c : Container) where
  abbrev Within : {A : Type 0} → Text → Action A → Type 0
  Within =
      EndsWithin env from decodes timely base is_url f (container_path c) (container-IsRooted c)

  abbrev At : Text → Type 0
  At = IsAt (container_path c)
