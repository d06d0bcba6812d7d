-- ===== src/Ingress/Rules/Tests.antt =====
-- The theorems on the ingress rules at concrete configurations, and the unit tests of
-- web/src/pages/cfIngress.test.ts.
use cloudflared_manager.Base.{◌≡◌, refl, true, false, none, some, [], ◌∷◌, codes, set, arith}
use cloudflared_manager.Api.Types.{IngressRule, TunnelConfig}
use cloudflared_manager.Ingress.Rules.{
  fallback_rule, ingress_of, is_catch_all, list_hostname_rules, reorder_hostnames,
}
use cloudflared_manager.Ingress.Rules.Layout.{IsServable, IsEditable, catch_all_of}
use cloudflared_manager.Ingress.Rules.Listing.{hosts_of}
use cloudflared_manager.Ingress.Rules.Edits.{IsEdit}
use cloudflared_manager.Ingress.Rules.Refinement.{
  append, replace, delete, apply_edit, apply_edits, edit_lists, apply_edit-IsEdit,
  apply_edits-refines,
}

abbrev rule_a : IngressRule
rule_a = record {
  hostname = some (codes "a.example.com");
  service = some (codes "http://localhost:1");
  path = none;
  origin_request = none;
}

abbrev rule_b : IngressRule
rule_b = record {
  hostname = some (codes "b.example.com");
  service = some (codes "http://localhost:2");
  path = none;
  origin_request = none;
}

-- Two hostnames and the catch-all, with warp routing on.
abbrev sample : TunnelConfig
sample = record {
  ingress = some (rule_a ∷ rule_b ∷ fallback_rule ∷ []);
  origin_request = none;
  warp_routing = some true;
}

sample-IsEditable : IsEditable (some sample)
unfolding is_catch_all
sample-IsEditable = record {
  hosts = rule_a ∷ rule_b ∷ [];
  tail = some fallback_rule;
  shape = refl;
  hosted = (refl, (refl, tt));
  caught = (refl, tt);
}

-- Without a configuration there is nothing but the default catch-all to come.
none-IsEditable : IsEditable none
none-IsEditable = record { hosts = []; tail = none; shape = refl; hosted = tt; caught = tt }

rule_b-hosted : is_catch_all rule_b ≡ false
unfolding is_catch_all
rule_b-hosted = refl

hosts_of-sample : hosts_of (some sample) ≡ rule_a ∷ rule_b ∷ []
unfolding list_hostname_rules is_catch_all
hosts_of-sample = refl

-- A catch-all that was dragged into the middle goes back to the end.
reorder_test :
    (reorder_hostnames (some sample) (rule_b ∷ fallback_rule ∷ rule_a ∷ [])).ingress
    ≡ some (rule_b ∷ rule_a ∷ fallback_rule ∷ [])
unfolding reorder_hostnames is_catch_all
reorder_test = refl

reorder_none_test :
    (reorder_hostnames none (rule_a ∷ [])).ingress ≡ some (rule_a ∷ fallback_rule ∷ [])
unfolding reorder_hostnames is_catch_all
reorder_none_test = refl

apply_edits-refines_example :
    (hosts_of
        (some (apply_edits (apply_edit none (append rule_a)) (replace 0 rule_b ∷ delete 0 ∷ [])))
      ≡ edit_lists (hosts_of none) (append rule_a ∷ replace 0 rule_b ∷ delete 0 ∷ []))
    × IsServable (
        ingress_of
          (some (apply_edits (apply_edit none (append rule_a)) (replace 0 rule_b ∷ delete 0 ∷ []))))
unfolding list_hostname_rules is_catch_all
apply_edits-refines_example =
    apply_edits-refines none (append rule_a) (replace 0 rule_b ∷ delete 0 ∷ []) none-IsEditable
      (refl, ((omega arith, refl), (omega arith, tt)))

apply_edit-IsEdit_example :
    IsEdit
      (some sample)
      (apply_edit (some sample) (replace 0 rule_b))
      (set (hosts_of (some sample)) 0 rule_b)
      (catch_all_of sample-IsEditable.tail)
unfolding list_hostname_rules is_catch_all
apply_edit-IsEdit_example =
    apply_edit-IsEdit (some sample) sample-IsEditable (replace 0 rule_b)
      (omega arith, rule_b-hosted)
