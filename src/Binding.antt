-- ===== src/Binding.antt =====
-- web/src/components/instance/InstanceCFPanel.tsx: the panel that binds an instance to a Cloudflare account
-- and edits the public hostnames of its tunnel through the daemon.
pub mod Panel
mod Tests
use cloudflared_manager.Base.{
  ℕ, Bool, true, false, ◌&&◌, not, Option, none, some, List, [], ◌∷◌, ◌++◌, filter, get_elem?,
  remove, take, drop, or_else, or_empty, or_default, Str, codes, str_eq, is_empty, map,
}
use cloudflared_manager.Api.Types.{
  PublicHostname, AccountView, TokenInfo, Binding, HostnameList, HostnameWrite, TunnelConfig,
  IngressRule,
}
use cloudflared_manager.Ingress.Form.{PublicHostnameForm, PublicHostnamePayload}
use cloudflared_manager.Ingress.Rules.{ingress_of, reorder_hostnames}

-- `get_config` goes with the order of the rows that its handler keeps for the answer, `none` where the order has an
-- `undefined` for a row that is gone.
pub data CfRequest : Type 0 where
  list_accounts : CfRequest
  get_binding token_info list_hostnames delete_binding : Str → CfRequest
  set_binding : Str → Str → Option Str → CfRequest
  add_hostname : Str → PublicHostnamePayload → CfRequest
  update_hostname : Str → ℕ → PublicHostnamePayload → CfRequest
  delete_hostname : Str → ℕ → Bool → CfRequest
  get_config : Str → Str → Option (List PublicHostname) → CfRequest
  put_config : Str → Str → TunnelConfig → CfRequest

pub data CfNotice : Type 0 where
  list_failed load_failed refresh_failed bind_failed unbind_failed : Str → CfNotice
  save_failed sync_failed delete_failed order_failed : Str → CfNotice
  refreshed account_missing mismatched matched unbound updated added : CfNotice
  dns_failed : Str → CfNotice
  dns_synced deleted order_impossible order_saved : CfNotice

-- The panel's state and its property `id`.
pub record CfPanel : Type 0 where
  pub id : Str
  pub loading : Bool
  pub refreshing : Bool
  pub binding : Option Binding
  pub token : Option TokenInfo
  pub accounts : List AccountView
  pub sel_account : Str
  pub sel_tunnel : Str
  pub is_binding : Bool
  pub hostnames : List PublicHostname
  pub hostnames_loading : Bool
  pub dns_error : Str
  pub modal_open : Bool
  pub editing : Option PublicHostname
  pub drag : Option ℕ
  pub over : Option ℕ
  pub syncing : Option ℕ
  pub notices : List CfNotice

abbrev pub usable_accounts : List AccountView → List AccountView
usable_accounts =
    filter (λ (a : AccountView). str_eq a.status (codes "active") && not (is_empty a.account_id))

-- The second `splice`, of what the first one has taken out.
abbrev pub put_back : {A : Type 0} → ℕ → List A → Option A → Option (List A)
put_back to left none = none
put_back to left (some moved) = some (take to left ++ moved ∷ drop to left)

-- The two `splice`s; `none` where there is no row `from`, so that `undefined` is put in.
abbrev pub spliced : {A : Type 0} → ℕ → ℕ → List A → Option (List A)
spliced from to xs = put_back to (remove xs from) (get_elem? xs from)

abbrev pub cons_some : {A : Type 0} → Option A → List A → List A
cons_some none xs = xs
cons_some (some x) xs = x ∷ xs

-- `.map((ph) => ingress[ph.index]).filter(Boolean)`
pub rules_at : List IngressRule → List ℕ → List IngressRule
rules_at ingress [] = []
rules_at ingress (i ∷ is) = cons_some (get_elem? ingress i) (rules_at ingress is)

-- The configuration that a new order of the rows is saved as.
unfoldable pub ordered_config : Option TunnelConfig → List PublicHostname → TunnelConfig
ordered_config config order =
    reorder_hostnames config
      (rules_at (ingress_of config) (map (λ (h : PublicHostname). h.index) order))
