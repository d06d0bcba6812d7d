-- ===== src/Ingress/Panel.antt =====
-- web/src/components/cf/PublicHostnamesTab.tsx: the panel that edits a tunnel's public hostnames over
-- the remote configuration. A handler runs to its end before the next one starts. What is rendered is
-- left out, and so are the texts of the notices.
pub mod Remote
pub mod Failures
mod Tests
use cloudflared_manager.Base.{
  ℕ, Bool, true, false, Option, none, some, List, [], ◌∷◌, ◌++◌, if◌then◌else◌, ◌==◌, or_default,
  or_empty, Str, map, get_elem?, take, drop, remove, Casing,
}
use cloudflared_manager.Api.Types.{IngressRule, TunnelConfig}
use cloudflared_manager.Api.Json.{Numbers}
use cloudflared_manager.Ingress.Rules.{
  pos, empty_config, list_hostname_rules, append_hostname_rule, replace_rule_at, remove_rule_at,
  reorder_hostnames,
}
use cloudflared_manager.Ingress.Dns.{
  Failure, Result, ok, err, M, CfApi, sync_proxy_cname, delete_proxy_cname,
}
use cloudflared_manager.Ingress.Form.{PublicHostnameForm, form_to_ingress_rule}

abbrev pub Row : Type 0
Row = IngressRule × ℕ

pub data Notice : Type 0 where
  added updated deleted reordered dns_synced : Notice
  load_failed save_failed delete_failed reorder_failed dns_failed : Failure → Notice

pub record Panel : Type 0 where
  pub config : Option TunnelConfig
  pub loading : Bool
  pub modal_open : Bool
  pub editing : Option Row
  pub drag : Option ℕ
  pub over : Option ℕ
  pub notices : List Notice

-- The first render.
abbrev pub initial : Panel
initial = record {
  config = none;
  loading = false;
  modal_open = false;
  editing = none;
  drag = none;
  over = none;
  notices = [];
}

abbrev pub notify : Notice → Panel → Panel
notify n p = record p { notices = n ∷ p.notices }

abbrev pub rows : Panel → List Row
rows p = list_hostname_rules p.config

-- The `config` of a response, which may be missing.
pub record TunnelApi (W : Type 0) : Type 0 where
  pub get_config : Str → Str → M W (Option TunnelConfig)
  pub put_config : Str → Str → TunnelConfig → M W (Option TunnelConfig)

-- `newRows.splice(from, 1)` and `newRows.splice(toPos, 0, moved)`, for a row that is there.
abbrev pub move_row : ℕ → ℕ → Row → List Row → List Row
move_row from to moved rs = let left = remove rs from in take to left ++ moved ∷ drop to left

-- What the panel's controls call.
pub data Action : Type 0 where
  refresh : Action
  open_add : Action
  open_edit : Row → Action
  cancel : Action
  submit : PublicHostnameForm → Action
  delete : Row → Action
  drag_start : ℕ → Action
  drag_over : ℕ → Action
  drag_end : Action
  row_drop : ℕ → Action

abbrev pub saved : Option Row → Notice
saved none = added
saved (some row) = updated

-- The panel behind a save: the dialog closes.
abbrev pub close_modal : Panel → TunnelConfig → Panel
close_modal p config = record (notify (saved p.editing) p) {
  config = some config;
  modal_open = false;
  editing = none;
}

-- The configuration that `handleRowDrop` sends, with `moved` at its new place.
abbrev pub moved_config : Panel → ℕ → ℕ → Row → TunnelConfig
moved_config p from to moved =
    reorder_hostnames p.config (map (λ r. r.0) (move_row from to moved (rows p)))

module _ (numbers : Numbers) (casing : Casing) {W : Type 0} (api : CfApi W) (tunnels : TunnelApi W)
    (aid tid : Str) where
  open tunnels use {get_config, put_config}

  abbrev pub after_load : Panel → Result (Option TunnelConfig) × W → Panel × W
  after_load p (ok resp, w) =
      (record p { config = some (or_default resp empty_config); loading = false }, w)
  after_load p (err e, w) = (notify (load_failed e) (record p { loading = false }), w)

  pub load : Panel → W → Panel × W
  load p w = after_load (record p { loading = true }) (get_config aid tid w)

  -- The configuration that `handleSubmit` sends.
  abbrev pub submitted_config : Panel → IngressRule → TunnelConfig
  submitted_config p rule = elim p.editing [
    | none ↦ append_hostname_rule p.config rule
    | some (old, index) ↦ replace_rule_at p.config (pos index) rule
  ]

  abbrev pub after_sync : Panel → Result (Unit {0}) × W → Panel × W
  after_sync p (ok _, w) = (notify dns_synced p, w)
  after_sync p (err e, w) = (notify (dns_failed e) p, w)

  abbrev pub after_submit :
      PublicHostnameForm → TunnelConfig → Panel → Result (Option TunnelConfig) × W → Panel × W
  after_submit values next p (err e, w) = (notify (save_failed e) p, w)
  after_submit values next p (ok resp, w) =
      let shown = close_modal p (or_default resp next) in
      let hostname = or_empty (form_to_ingress_rule numbers values).hostname in
      if or_default values.manage_dns false
      then after_sync shown (sync_proxy_cname casing api aid tid hostname w)
      else (shown, w)

  pub handle_submit : PublicHostnameForm → Panel → W → Panel × W
  handle_submit values p w =
      let next = submitted_config p (form_to_ingress_rule numbers values) in
      after_submit values next p (put_config aid tid next w)

  abbrev pub after_delete :
      Row → TunnelConfig → Panel → Result (Option TunnelConfig) × W → Panel × W
  after_delete item next p (err e, w) = (notify (delete_failed e) p, w)
  after_delete item next p (ok resp, w) = (
    notify deleted (record p { config = some (or_default resp next) }),
    (delete_proxy_cname casing api aid (or_empty item.0.hostname) w).1,
  )

  pub handle_delete : Row → Panel → W → Panel × W
  handle_delete item p w =
      let next = remove_rule_at p.config (pos item.1) in
      after_delete item next p (put_config aid tid next w)

  -- `prev` is the configuration before the optimistic update, and what a failure goes back to.
  abbrev pub after_drop :
      Option TunnelConfig → TunnelConfig → Panel → Result (Option TunnelConfig) × W → Panel × W
  after_drop prev next p (ok resp, w) =
      (notify reordered (record p { config = some (or_default resp next) }), w)
  after_drop prev next p (err e, w) = (notify (reorder_failed e) (record p { config = prev }), w)

  -- A row that is not there ends the handler with a TypeError.
  abbrev pub drop_row : ℕ → ℕ → Option Row → Panel → W → Panel × W
  drop_row from to none p w = (p, w)
  drop_row from to (some moved) p w =
      let next = moved_config p from to moved in
      after_drop p.config next (record p { config = some next }) (put_config aid tid next w)

  abbrev pub drop_from : Option ℕ → ℕ → Panel → W → Panel × W
  drop_from none to p w = (p, w)
  drop_from (some from) to p w =
      if from == to then (p, w) else drop_row from to (get_elem? (rows p) from) p w

  pub handle_row_drop : ℕ → Panel → W → Panel × W
  handle_row_drop to p w = drop_from p.drag to (record p { drag = none; over = none }) w

  pub act : Action → Panel → W → Panel × W
  unfolding load handle_submit handle_delete handle_row_drop
  act refresh p w = load p w
  act open_add p w = (record p { editing = none; modal_open = true }, w)
  act (open_edit row) p w = (record p { editing = some row; modal_open = true }, w)
  act cancel p w = (record p { modal_open = false; editing = none }, w)
  act (submit values) p w = handle_submit values p w
  act (delete row) p w = handle_delete row p w
  act (drag_start i) p w = (record p { drag = some i }, w)
  act (drag_over i) p w = elim p.drag [
    | none ↦ (p, w)
    | some from ↦ (record p { over = some i }, w)
  ]
  act drag_end p w = (record p { drag = none; over = none }, w)
  act (row_drop i) p w = elim p.drag [ none ↦ (p, w) | some from ↦ handle_row_drop i p w ]

  -- Handlers one after another: none begins while a request of another is under way.
  abbrev pub acts : List Action → Panel → W → Panel × W
  acts [] p w = (p, w)
  acts (a ∷ more) p w = let (p1, w1) = act a p w in acts more p1 w1
