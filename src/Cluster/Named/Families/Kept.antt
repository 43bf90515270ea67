-- ===== src/Cluster/Named/Families/Kept.antt =====
-- What the calls on the named entries of a cluster send.
use go_proxmox.Prelude.{ℕ, ◌≡◌, false, Option}
use go_proxmox.Prelude.Text.{Text, codes, has_prefix}
use go_proxmox.World.{Env, Event}
use go_proxmox.Client.{State, Action}
use go_proxmox.Session.Steps.{DecodesSession, IsTimely}
use go_proxmox.Session.Sent.{IsPlain, IsOf, url_at}
use go_proxmox.Containers.Calls.{Values}
use go_proxmox.Firewall.Place.{SendsOnly}
use go_proxmox.Cluster.Named.{TextFields}

module _ (env : Env) (start : ℕ) (decodes : DecodesSession env) (timely : IsTimely start env)
    (base : Text) (is_url : has_prefix base (codes "/") ≡ false) (f : ℕ) (lib : Values)
    (fields : TextFields lib) where
  module _ (s : State) (h : IsPlain base s) where
    abbrev Sends : {A : Type 0} → Text → Text → Option Text → Action A → Type 0
    Sends method path body m = SendsOnly base method path body m s

    abbrev Asked : Text → Text → Option Text → Event → Type 0
    Asked method path body = IsOf base method (url_at base path) body
