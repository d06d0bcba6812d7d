-- ===== src/Binding/Panel.antt =====
-- web/src/components/instance/InstanceCFPanel.tsx: the handlers of the panel, each cut at its `await`. What the
-- user does and the replies of the requests enter as signals, in any order; a reply carries what its
-- handler's closure had captured.
pub mod Order
pub mod Stale
use cloudflared_manager.Base.{
  ℕ, Bool, true, false, ◌&&◌, ◌||◌, not, ◌==◌, Option, none, some, List, [], ◌∷◌, ◌++◌,
  if◌then◌else◌, or_empty, or_default, Str, is_empty, codes, trim,
}
use cloudflared_manager.Api.Types.{
  PublicHostname, AccountView, TokenInfo, Binding, DnsStatus, HostnameList, HostnameWrite,
  TunnelConfig,
}
use cloudflared_manager.Api.Json.{Numbers}
use cloudflared_manager.Ingress.Form.{PublicHostnameForm, PublicHostnamePayload, form_to_payload}
use cloudflared_manager.Api.Reply.{Rejection, err_msg, Reply, done, failed}
use cloudflared_manager.Binding.{
  CfRequest, list_accounts, get_binding, token_info, list_hostnames, delete_binding, set_binding,
  add_hostname, update_hostname, delete_hostname, get_config, put_config, CfNotice, list_failed,
  load_failed, refresh_failed, bind_failed, unbind_failed, save_failed, sync_failed, delete_failed,
  order_failed, refreshed, account_missing, mismatched, matched, unbound, updated, added,
  dns_failed, dns_synced, deleted, order_impossible, order_saved, CfPanel, spliced, ordered_config,
}

pub data CfSignal : Type 0 where
  show : Str → CfSignal
  accounts_listed : Option (List AccountView) → CfSignal
  binding_loaded : Str → Reply (Binding × TokenInfo) → CfSignal
  hostnames_listed : Reply HostnameList → CfSignal
  reload_hostnames refresh bind_clicked unbind open_add cancel drag_end : CfSignal
  binding_refreshed : Str → Reply Binding → CfSignal
  select_account edit_tunnel : Str → CfSignal
  binding_set : Str → Reply Binding → CfSignal
  binding_deleted : Str → Reply Unit → CfSignal
  open_edit : PublicHostname → CfSignal
  submit : PublicHostnameForm → CfSignal
  submit_answered : Str → Bool → Bool → Reply HostnameWrite → CfSignal
  sync_dns : PublicHostname → CfSignal
  sync_answered : Str → Reply HostnameWrite → CfSignal
  delete_clicked : PublicHostname → CfSignal
  delete_answered : Str → Reply Unit → CfSignal
  drag_start drag_over row_drop : ℕ → CfSignal
  order_config :
      Str → Str → Str → Option (List PublicHostname) → Reply (Option TunnelConfig) → CfSignal
  order_answered : Str → Reply Unit → CfSignal

abbrev pub tell : CfNotice → CfPanel → CfPanel
tell n p = record p { notices = n ∷ p.notices }

-- `loadHostnames` of a closure for `id`.
abbrev pub load_hostnames : Str → CfPanel → CfPanel × List CfRequest
load_hostnames id p = (record p { hostnames_loading = true }, list_hostnames id ∷ [])

-- `load`
abbrev pub load_binding : Str → CfPanel → CfPanel × List CfRequest
load_binding id p = (record p { loading = true }, get_binding id ∷ token_info id ∷ [])

-- `if (b.bound) loadHostnames()`
abbrev pub load_if_bound : Str → Binding → CfPanel → CfPanel × List CfRequest
load_if_bound id b p = if b.bound then load_hostnames id p else (p, [])

abbrev pub on_binding_loaded :
    Str → Reply (Binding × TokenInfo) → CfPanel → CfPanel × List CfRequest
on_binding_loaded id (failed e) p =
    (tell (load_failed (err_msg e)) (record p { loading = false }), [])
on_binding_loaded id (done (b, t)) p = load_if_bound id b (record p {
  binding = some b;
  token = some t;
  sel_tunnel = or_empty t.tunnel_id;
  loading = false;
})

abbrev pub on_hostnames_listed : Reply HostnameList → CfPanel → CfPanel
on_hostnames_listed (failed e) p =
    tell (list_failed (err_msg e)) (record p { hostnames_loading = false })
on_hostnames_listed (done r) p = record p {
  hostnames = or_default r.items [];
  dns_error = or_empty r.dns_error;
  hostnames_loading = false;
}

abbrev pub on_refreshed : Str → Reply Binding → CfPanel → CfPanel × List CfRequest
on_refreshed id (failed e) p =
    (tell (refresh_failed (err_msg e)) (record p { refreshing = false }), [])
on_refreshed id (done b) p =
    load_if_bound id b (tell refreshed (record p { binding = some b; refreshing = false }))

-- `selTunnel.trim() || undefined`
abbrev pub tunnel_option : Str → Option Str
tunnel_option s = if is_empty (trim s) then none else some (trim s)

abbrev pub handle_bind : CfPanel → CfPanel × List CfRequest
handle_bind p = if is_empty p.sel_account then (tell account_missing p, []) else (
  record p { is_binding = true },
  set_binding p.id p.sel_account (tunnel_option p.sel_tunnel) ∷ [],
)

abbrev pub on_bound : Str → Reply Binding → CfPanel → CfPanel × List CfRequest
on_bound id (failed e) p = (tell (bind_failed (err_msg e)) (record p { is_binding = false }), [])
on_bound id (done b) p = load_if_bound id b (
    tell (if b.bound && not b.match then mismatched else matched)
      (record p { binding = some b; is_binding = false }))

abbrev pub on_unbound : Str → Reply Unit → CfPanel → CfPanel × List CfRequest
on_unbound id (failed e) p = (tell (unbind_failed (err_msg e)) p, [])
on_unbound id (done u) p = load_binding id (record (tell unbound p) { hostnames = [] })

abbrev pub submit_request : Option PublicHostname → Str → PublicHostnamePayload → CfRequest
submit_request none id payload = add_hostname id payload
submit_request (some ph) id payload = update_hostname id ph.index payload

abbrev pub is_edit : Option PublicHostname → Bool
is_edit none = false
is_edit (some ph) = true

abbrev pub in_sync_of : Option DnsStatus → Bool
in_sync_of none = false
in_sync_of (some d) = d.in_sync

-- What is said of the DNS record behind a save.
abbrev pub tell_dns : HostnameWrite → CfPanel → CfPanel
tell_dns r p =
    if not (is_empty (or_empty r.dns_error))
    then tell (dns_failed (or_empty r.dns_error)) p
    else if in_sync_of r.dns
    then tell dns_synced p
    else p

abbrev pub on_submitted :
    Str → Bool → Bool → Reply HostnameWrite → CfPanel → CfPanel × List CfRequest
on_submitted id edited managed (failed e) p = (tell (save_failed (err_msg e)) p, [])
on_submitted id edited managed (done r) p =
    let saved = tell (if edited then updated else added) p in
    let told = if managed then tell_dns r saved else saved in
    load_hostnames id (record told { modal_open = false; editing = none })

-- The listed hostname again, its DNS record managed.
abbrev pub sync_payload : PublicHostname → PublicHostnamePayload
sync_payload r = record {
  hostname = r.hostname;
  service = r.service;
  path = r.path;
  origin_request = r.origin_request;
  manage_dns = some true;
}

abbrev pub on_synced : Str → Reply HostnameWrite → CfPanel → CfPanel × List CfRequest
on_synced id (failed e) p = (tell (sync_failed (err_msg e)) (record p { syncing = none }), [])
on_synced id (done r) p =
    let told =
      if is_empty (or_empty r.dns_error)
      then tell dns_synced p
      else tell (sync_failed (or_empty r.dns_error)) p in
    load_hostnames id (record told { syncing = none })

abbrev pub on_hostname_deleted : Str → Reply Unit → CfPanel → CfPanel × List CfRequest
on_hostname_deleted id (failed e) p = (tell (delete_failed (err_msg e)) p, [])
on_hostname_deleted id (done u) p = load_hostnames id (tell deleted p)

-- The rows at once in their new order. The gap that a missing row leaves in the list until it is loaded again is
-- left out.
abbrev pub show_order : Option (List PublicHostname) → CfPanel → CfPanel
show_order none p = p
show_order (some order) p = record p { hostnames = order }

abbrev pub reorder_bound : ℕ → ℕ → Binding → CfPanel → CfPanel × List CfRequest
reorder_bound from to b p =
    let aid = or_empty b.account_id in
    let tid = or_empty b.tunnel_id in
    if is_empty aid || is_empty tid then (tell order_impossible p, []) else (
      show_order (spliced from to p.hostnames) p,
      get_config aid tid (spliced from to p.hostnames) ∷ [],
    )

abbrev pub reorder_from : Option ℕ → ℕ → Option Binding → CfPanel → CfPanel × List CfRequest
reorder_from none to b p = (p, [])
reorder_from (some from) to none p = (p, [])
reorder_from (some from) to (some b) p = if from == to then (p, []) else reorder_bound from to b p

-- What reading `index` of `undefined` throws.
abbrev type_error : Str
type_error = codes "Cannot read properties of undefined (reading 'index')"

-- Behind the request of the configuration; a gap in the order ends it before the next request. `finally` loads the rows again.
abbrev pub on_order_config :
    Str
    → Str
    → Str
    → Option (List PublicHostname)
    → Reply (Option TunnelConfig)
    → CfPanel
    → CfPanel × List CfRequest
on_order_config id aid tid order (failed e) p =
    load_hostnames id (tell (order_failed (err_msg e)) p)
on_order_config id aid tid none (done config) p =
    load_hostnames id (tell (order_failed type_error) p)
on_order_config id aid tid (some order) (done config) p =
    (p, put_config aid tid (ordered_config config order) ∷ [])

abbrev pub on_order_put : Reply Unit → CfPanel → CfPanel
on_order_put (failed e) p = tell (order_failed (err_msg e)) p
on_order_put (done u) p = tell order_saved p

-- A row reacts to being dragged over or dropped on only while a drag is on.
abbrev pub while_dragging : Option ℕ → CfPanel × List CfRequest → CfPanel → CfPanel × List CfRequest
while_dragging none q p = (p, [])
while_dragging (some from) q p = q

module _ (numbers : Numbers) where
  unfoldable pub step : CfSignal → CfPanel → CfPanel × List CfRequest
  step (show id) p =
      let (p1, rs) = load_binding id (record p { id = id }) in (p1, list_accounts ∷ rs)
  step (accounts_listed accounts) p = (record p { accounts = or_default accounts [] }, [])
  step (binding_loaded id r) p = on_binding_loaded id r p
  step (hostnames_listed r) p = (on_hostnames_listed r p, [])
  step reload_hostnames p = load_hostnames p.id p
  step refresh p = (record p { refreshing = true }, get_binding p.id ∷ [])
  step (binding_refreshed id r) p = on_refreshed id r p
  step (select_account a) p = (record p { sel_account = a }, [])
  step (edit_tunnel t) p = (record p { sel_tunnel = t }, [])
  step bind_clicked p = handle_bind p
  step (binding_set id r) p = on_bound id r p
  step unbind p = (p, delete_binding p.id ∷ [])
  step (binding_deleted id r) p = on_unbound id r p
  step open_add p = (record p { editing = none; modal_open = true }, [])
  step (open_edit ph) p = (record p { editing = some ph; modal_open = true }, [])
  step cancel p = (record p { modal_open = false; editing = none }, [])
  step (submit values) p = (p, submit_request p.editing p.id (form_to_payload numbers values) ∷ [])
  step (submit_answered id edited managed r) p = on_submitted id edited managed r p
  step (sync_dns row) p = (
    record p { syncing = some row.index },
    update_hostname p.id row.index (sync_payload row) ∷ [],
  )
  step (sync_answered id r) p = on_synced id r p
  step (delete_clicked row) p = (p, delete_hostname p.id row.index true ∷ [])
  step (delete_answered id r) p = on_hostname_deleted id r p
  step (drag_start i) p = (record p { drag = some i }, [])
  step (drag_over i) p = while_dragging p.drag (record p { over = some i }, []) p
  step drag_end p = (record p { drag = none; over = none }, [])
  step (row_drop to) p =
      while_dragging p.drag
        (reorder_from p.drag to p.binding (record p { drag = none; over = none })) p
  step (order_config id aid tid order r) p = on_order_config id aid tid order r p
  step (order_answered id r) p = load_hostnames id (on_order_put r p)

  -- The panel and all requests behind a sequence of signals, the first request first.
  unfoldable pub steps : List CfSignal → CfPanel → CfPanel × List CfRequest
  unfolding step
  steps [] p = (p, [])
  steps (s ∷ signals) p =
      let (p1, first) = step s p in let (p2, others) = steps signals p1 in (p2, first ++ others)
