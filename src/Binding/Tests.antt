-- ===== src/Binding/Tests.antt =====
-- The theorems on web/src/components/instance/InstanceCFPanel.tsx at concrete panels.
use cloudflared_manager.Base.{
  ℕ, arith, refl, true, false, none, some, List, [], ◌∷◌, filter, Str, codes,
}
use cloudflared_manager.Api.Types.{PublicHostname, IngressRule, TunnelConfig, Binding}
use cloudflared_manager.Ingress.Origin.Tests.{whole_numbers}
use cloudflared_manager.Ingress.Rules.{fallback_rule, is_catch_all}
use cloudflared_manager.Ingress.Rules.Layout.{IsEditable, catch_all_of}
use cloudflared_manager.Ingress.Rules.Listing.{is_host}
use cloudflared_manager.Ingress.Rules.Edits.{IsEdit}
use cloudflared_manager.Binding.{CfPanel}
use cloudflared_manager.Binding.Panel.Order.{Saves, IsMoved, row_drop-IsEdit}

abbrev host_rule : Str → IngressRule
host_rule name = record {
  hostname = some name;
  service = some (codes "http://localhost:1");
  path = none;
  origin_request = none;
}

abbrev row : ℕ → Str → PublicHostname
row index name = record {
  index = index;
  hostname = name;
  service = codes "http://localhost:1";
  path = none;
  origin_request = none;
  dns = none;
}

abbrev bound_tunnel : Binding
bound_tunnel = record {
  bound = true;
  account_id = some (codes "acc");
  account_name = none;
  cf_account_id = none;
  tunnel_id = some (codes "tun");
  tunnel_name = none;
  account_tag = none;
  token_account_tag = none;
  token_tunnel_id = none;
  match = true;
  tunnel = none;
}

abbrev rules : List IngressRule
rules = host_rule (codes "a.example.com") ∷ host_rule (codes "b.example.com") ∷ fallback_rule ∷ []

abbrev config : TunnelConfig
config = record { ingress = some rules; origin_request = none; warp_routing = some true }

config-IsEditable : IsEditable (some config)
unfolding is_catch_all
config-IsEditable = record {
  hosts = host_rule (codes "a.example.com") ∷ host_rule (codes "b.example.com") ∷ [];
  tail = some fallback_rule;
  shape = refl;
  hosted = (refl, (refl, tt));
  caught = (refl, tt);
}

-- The panel of the tunnel while its first row is dragged.
abbrev dragging : List PublicHostname → CfPanel
dragging hostnames = record {
  id = codes "one";
  loading = false;
  refreshing = false;
  binding = some bound_tunnel;
  token = none;
  accounts = [];
  sel_account = [];
  sel_tunnel = [];
  is_binding = false;
  hostnames = hostnames;
  hostnames_loading = false;
  dns_error = [];
  modal_open = false;
  editing = none;
  drag = some 0;
  over = none;
  syncing = none;
  notices = [];
}

abbrev listed_rows : List PublicHostname
listed_rows = row 0 (codes "a.example.com") ∷ row 1 (codes "b.example.com") ∷ row 2 [] ∷ []

row_drop-IsEdit_example :
    (next : TunnelConfig) × (order : List IngressRule) × Saves whole_numbers
      (dragging listed_rows)
      bound_tunnel
      0
      1
      (some config)
      next
    × IsMoved 0 1 rules order
    × IsEdit (some config) next (filter is_host order) (catch_all_of config-IsEditable.tail)
row_drop-IsEdit_example =
    row_drop-IsEdit whole_numbers (dragging listed_rows) bound_tunnel 0 1 refl refl refl refl refl
      (omega arith) (omega arith) (some config) config-IsEditable refl
