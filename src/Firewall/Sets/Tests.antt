-- ===== src/Firewall/Sets/Tests.antt =====
-- Runs of the calls on aliases and IP sets.
use go_proxmox.Prelude.{refl, false, true, none, [], arith}
use go_proxmox.Prelude.Text.{Text, codes, has_prefix}
use go_proxmox.Errors.{ok}
use go_proxmox.Json.{Json, Members}
use go_proxmox.Session.Sample.{strict_env-DecodesSession, strict_env, with_password, site}
use go_proxmox.Containers.Calls.{Values}
use go_proxmox.Firewall.Place.{SendsOnly}
use go_proxmox.Firewall.Sets.{the_cluster, make, drop_set}
use go_proxmox.Firewall.Sets.Alike.{set_calls_alike}

-- A struct is its name; the only query is that of `force`.
abbrev named : Values
named = record {
  Value = Text;
  decode = λ t j. ok [];
  zero_value = λ t. [];
  encode = λ v. Json.object (Members.member (codes "name") (Json.string v) Members.end);
  names = λ v. [];
  feature = λ v. false;
  url_string = λ p q. p;
  query = λ m. codes "force=1";
}

set_calls_alike_example :
    SendsOnly site
      (codes "DELETE")
      (codes "/cluster/firewall/ipset/blocked?force=1")
      none
      (make strict_env 2 named the_cluster (drop_set (codes "blocked") true))
      with_password
unfolding has_prefix
set_calls_alike_example =
    set_calls_alike strict_env 0 strict_env-DecodesSession (λ h. (omega arith, omega arith)) site
      refl 0 named refl with_password (refl, refl) the_cluster (drop_set (codes "blocked") true)
