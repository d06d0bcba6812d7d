-- ===== src/Ingress/Panel/Tests.antt =====
-- The theorems on the panel of web/src/components/cf/PublicHostnamesTab.tsx at a concrete tunnel, whose
-- state is its configuration, in an account without zones.
use cloudflared_manager.Base.{refl, true, none, some, [], ◌∷◌, Str, codes, ascii_casing}
use cloudflared_manager.Api.Types.{IngressRule, TunnelConfig}
use cloudflared_manager.Ingress.Origin.Tests.{whole_numbers, origin_form}
use cloudflared_manager.Ingress.Service.{http}
use cloudflared_manager.Ingress.Rules.{fallback_rule}
use cloudflared_manager.Ingress.Dns.{ok, err, rejected, CfApi}
use cloudflared_manager.Ingress.Form.{PublicHostnameForm}
use cloudflared_manager.Ingress.Panel.{
  Panel, initial, TunnelApi, refresh, open_add, submit, delete, drag_start, drag_over, row_drop,
  acts,
}
use cloudflared_manager.Ingress.Panel.Remote.{
  IsTunnelService, LeavesTunnels, IsCurrent, acts-IsCurrent,
}

abbrev no_zones : CfApi TunnelConfig
no_zones = record {
  list_zones = λ aid w. (ok (some []), w);
  list_dns = λ aid zid name w. (ok none, w);
  create_dns = λ aid zid rec w. (ok rec, w);
  update_dns = λ aid zid rid rec w. (ok rec, w);
  delete_dns = λ aid zid rid w. (ok tt, w);
}

no_zones-LeavesTunnels : LeavesTunnels (λ w. w) no_zones
no_zones-LeavesTunnels = record {
  list_zones_leaves = λ aid w. refl;
  list_dns_leaves = λ aid zid name w. refl;
  create_dns_leaves = λ aid zid rec w. refl;
  update_dns_leaves = λ aid zid rid rec w. refl;
  delete_dns_leaves = λ aid zid rid w. refl;
}

abbrev answering : TunnelApi TunnelConfig
answering = record {
  get_config = λ aid tid w. (ok (some w), w);
  put_config = λ aid tid next w. (ok none, next);
}

answering-IsTunnelService : IsTunnelService (λ w. w) answering
answering-IsTunnelService = record {
  get_config_reads = λ aid tid w. (refl, refl);
  put_config_replaces = λ aid tid next w. (refl, refl);
}

-- The service behind a connection that drops what is read.
abbrev unread : TunnelApi TunnelConfig
unread = record {
  get_config = λ aid tid w. (err (rejected (codes "timeout")), w);
  put_config = λ aid tid next w. (ok none, next);
}

unread-IsTunnelService : IsTunnelService (λ w. w) unread
unread-IsTunnelService = record {
  get_config_reads = λ aid tid w. refl;
  put_config_replaces = λ aid tid next w. (refl, refl);
}

abbrev refusing : TunnelApi TunnelConfig
refusing = record {
  get_config = λ aid tid w. (ok (some w), w);
  put_config = λ aid tid next w. (err (rejected (codes "400")), w);
}

abbrev rule_of : Str → IngressRule
rule_of name = record {
  hostname = some name;
  service = some (codes "http://localhost");
  path = none;
  origin_request = none;
}

abbrev stored : TunnelConfig
stored = record {
  ingress = some (rule_of (codes "a.test") ∷ rule_of (codes "b.test") ∷ fallback_rule ∷ []);
  origin_request = none;
  warp_routing = none;
}

abbrev added_form : PublicHostnameForm
added_form = record {
  hostname = some (codes "c.test");
  subdomain = none;
  zone_name = none;
  path = none;
  service_type = http;
  service_target = some (codes "localhost");
  manage_dns = some true;
  origin = origin_form;
}

abbrev dragged : Panel
dragged = record initial { config = some stored; drag = some 0; over = some 1 }

acts-IsCurrent_example :
    IsCurrent
      (λ w. w)
      (acts whole_numbers ascii_casing no_zones answering
        (codes "acc")
        (codes "t1")
        (refresh
          ∷ drag_start 0
          ∷ drag_over 1
          ∷ row_drop 1
          ∷ open_add
          ∷ submit added_form
          ∷ delete (rule_of (codes "b.test"), 0)
          ∷ [])
        initial
        stored).0.config
      (acts whole_numbers ascii_casing no_zones answering
        (codes "acc")
        (codes "t1")
        (refresh
          ∷ drag_start 0
          ∷ drag_over 1
          ∷ row_drop 1
          ∷ open_add
          ∷ submit added_form
          ∷ delete (rule_of (codes "b.test"), 0)
          ∷ [])
        initial
        stored).1
acts-IsCurrent_example =
    acts-IsCurrent (λ w. w) whole_numbers ascii_casing no_zones answering (codes "acc") (codes "t1")
      no_zones-LeavesTunnels answering-IsTunnelService
      (refresh
        ∷ drag_start 0
        ∷ drag_over 1
        ∷ row_drop 1
        ∷ open_add
        ∷ submit added_form
        ∷ delete (rule_of (codes "b.test"), 0)
        ∷ [])
      initial stored tt
