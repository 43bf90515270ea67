-- ===== src/Firewall/Tests.antt =====
-- Runs of the law on firewall rules.
use go_proxmox.Prelude.{refl, none, some, [], arith}
use go_proxmox.Prelude.Text.{codes, has_prefix}
use go_proxmox.Errors.{ok}
use go_proxmox.Session.Sample.{strict_env-DecodesSession, strict_env, with_password, site}
use go_proxmox.Firewall.{
  FirewallRule, RuleLib, of_lxc, wired, firewall_rule, rule_get, rule_update, rule_delete,
}
use go_proxmox.Firewall.Place.{SendsOnly, place_of, rule_calls-SendsOnly}

abbrev rule_lib : RuleLib
rule_lib = record {
  encode = λ r. r.fields;
  decode = λ r j. ok (record r { fields = j });
  decode_list = λ j. ok [];
}

abbrev third : FirewallRule
third = firewall_rule (of_lxc (codes "pve1") 101) 3

rule_calls_example :
    SendsOnly site
      (codes "GET")
      (place_of (of_lxc (codes "pve1") 101) third.position)
      none
      (rule_get strict_env 2 rule_lib (wired (of_lxc (codes "pve1") 101) third))
      with_password
    × SendsOnly site
        (codes "PUT")
        (place_of (of_lxc (codes "pve1") 101) third.position)
        (some (strict_env.render (rule_lib.encode (wired (of_lxc (codes "pve1") 101) third))))
        (rule_update strict_env 2 rule_lib (wired (of_lxc (codes "pve1") 101) third))
        with_password
    × SendsOnly site
        (codes "DELETE")
        (place_of (of_lxc (codes "pve1") 101) third.position)
        none
        (rule_delete strict_env 2 rule_lib (wired (of_lxc (codes "pve1") 101) third))
        with_password
unfolding has_prefix
rule_calls_example =
    rule_calls-SendsOnly strict_env 0 strict_env-DecodesSession (λ h. (omega arith, omega arith))
      site refl 0 rule_lib (of_lxc (codes "pve1") 101) third with_password (refl, refl)
