-- ===== src/Ingress/Panel/Remote.antt =====
-- The panel of web/src/components/cf/PublicHostnamesTab.tsx against the remote configuration, and what
-- it relies on of the tunnel service (internal/api/cf_tunnels.go and the Cloudflare API): a configuration
-- that is put replaces the one before as a whole, a request that fails changes nothing, and the DNS
-- requests leave the tunnel alone.
use cloudflared_manager.Base.{
  ◌≡◌, refl, sym, ap, ◌∙◌, true, false, Option, none, some, List, [], ◌∷◌, or_default, or_empty,
  Str, find, get_elem?, Casing, Bool-cases, Option-cases, inl, inr, ◌==◌, ℕ,
}
use cloudflared_manager.Api.Types.{TunnelConfig, Zone, DnsRecord}
use cloudflared_manager.Api.Json.{Numbers}
use cloudflared_manager.Ingress.Rules.{pos, empty_config, remove_rule_at}
use cloudflared_manager.Ingress.Hostname.{pick_zone}
use cloudflared_manager.Ingress.Dns.{
  Result, ok, err, M, continue, CfApi, same_name, existing_id, write_record, remove_record,
  sync_in_zone, delete_in_zone, proxy_record, sync_proxy_cname, delete_proxy_cname,
}
use cloudflared_manager.Ingress.Form.{PublicHostnameForm, form_to_ingress_rule}
use cloudflared_manager.Ingress.Panel.{
  Row, Panel, TunnelApi, rows, close_modal, moved_config, after_load, load, submitted_config,
  after_sync, after_submit, handle_submit, after_delete, handle_delete, after_drop, drop_row,
  drop_from, handle_row_drop, Action, refresh, open_add, open_edit, cancel, submit, delete,
  drag_start, drag_over, drag_end, row_drop, act, acts,
}

module _ {W : Type 0} (remote : W → TunnelConfig) where
  abbrev pub IsRead : W → Result (Option TunnelConfig) × W → Type 0
  IsRead w (ok r, w') = (or_default r empty_config ≡ remote w') × (remote w' ≡ remote w)
  IsRead w (err e, w') = remote w' ≡ remote w

  abbrev pub IsReplaced : TunnelConfig → W → Result (Option TunnelConfig) × W → Type 0
  IsReplaced next w (ok r, w') = (or_default r next ≡ remote w') × (remote w' ≡ next)
  IsReplaced next w (err e, w') = remote w' ≡ remote w

  pub record IsTunnelService (tunnels : TunnelApi W) : Type 0 where
    pub get_config_reads : (aid tid : Str) (w : W) → IsRead w (tunnels.get_config aid tid w)
    pub put_config_replaces :
        (aid tid : Str) (next : TunnelConfig) (w : W)
        → IsReplaced next w (tunnels.put_config aid tid next w)

  pub record LeavesTunnels (api : CfApi W) : Type 0 where
    pub list_zones_leaves : (aid : Str) (w : W) → remote (api.list_zones aid w).1 ≡ remote w
    pub list_dns_leaves :
        (aid zid name : Str) (w : W) → remote (api.list_dns aid zid name w).1 ≡ remote w
    pub create_dns_leaves :
        (aid zid : Str) (rec : DnsRecord) (w : W)
        → remote (api.create_dns aid zid rec w).1 ≡ remote w
    pub update_dns_leaves :
        (aid zid rid : Str) (rec : DnsRecord) (w : W)
        → remote (api.update_dns aid zid rid rec w).1 ≡ remote w
    pub delete_dns_leaves :
        (aid zid rid : Str) (w : W) → remote (api.delete_dns aid zid rid w).1 ≡ remote w

  continue_leaves :
      {A B : Type 0} (m : Result A × W) (f : A → M W B) (c : TunnelConfig)
      → remote m.1 ≡ c
      → ((a : A) (w : W) → remote (f a w).1 ≡ remote w)
      → remote (continue m f).1 ≡ c
  continue_leaves (ok a, w) f c h k = k a w ∙ h
  continue_leaves (err e, w) f c h k = h

  -- What the panel shows, if anything, is what the tunnel has.
  abbrev pub IsCurrent : Option TunnelConfig → W → Type 0
  IsCurrent none w = Unit
  IsCurrent (some config) w = config ≡ remote w

  still-IsCurrent :
      (config : Option TunnelConfig) (w w' : W)
      → remote w' ≡ remote w
      → IsCurrent config w
      → IsCurrent config w'
  still-IsCurrent none w w' e h = tt
  still-IsCurrent (some config) w w' e h = h ∙ sym e

  module _ (numbers : Numbers) (casing : Casing) (api : CfApi W) (tunnels : TunnelApi W)
      (aid tid : Str) (leaves : LeavesTunnels api) (service : IsTunnelService tunnels) where
    open leaves use {
      list_zones_leaves, list_dns_leaves, create_dns_leaves, update_dns_leaves, delete_dns_leaves,
    }

    write_record_leaves :
        (zid : Str) (o : Option Str) (rec : DnsRecord) (w : W)
        → remote (write_record casing api aid zid o rec w).1 ≡ remote w
    write_record_leaves zid none rec w =
        continue_leaves _ _ _ (create_dns_leaves aid zid rec w) (λ a w1. refl)
    write_record_leaves zid (some rid) rec w =
        continue_leaves _ _ _ (update_dns_leaves aid zid rid rec w) (λ a w1. refl)

    remove_record_leaves :
        (zid : Str) (o : Option Str) (w : W)
        → remote (remove_record casing api aid zid o w).1 ≡ remote w
    remove_record_leaves zid none w = refl
    remove_record_leaves zid (some rid) w = delete_dns_leaves aid zid rid w

    sync_in_zone_leaves :
        (hostname : Str) (o : Option Zone) (w : W)
        → remote (sync_in_zone casing api aid tid hostname o w).1 ≡ remote w
    sync_in_zone_leaves hostname none w = refl
    sync_in_zone_leaves hostname (some zone) w =
        continue_leaves (api.list_dns aid zone.id hostname w)
          (λ items.
            write_record casing api aid zone.id
              (existing_id (find (same_name casing hostname) (or_default items [])))
              (proxy_record tid hostname))
          (remote w) (list_dns_leaves aid zone.id hostname w)
          (λ items w1.
            write_record_leaves zone.id
              (existing_id (find (same_name casing hostname) (or_default items [])))
              (proxy_record tid hostname) w1)

    delete_in_zone_leaves :
        (hostname : Str) (o : Option Zone) (w : W)
        → remote (delete_in_zone casing api aid hostname o w).1 ≡ remote w
    delete_in_zone_leaves hostname none w = refl
    delete_in_zone_leaves hostname (some zone) w =
        continue_leaves (api.list_dns aid zone.id hostname w)
          (λ items.
            remove_record casing api aid zone.id
              (existing_id (find (same_name casing hostname) (or_default items []))))
          (remote w) (list_dns_leaves aid zone.id hostname w)
          (λ items w1.
            remove_record_leaves zone.id
              (existing_id (find (same_name casing hostname) (or_default items []))) w1)

    sync_proxy_cname_leaves :
        (hostname : Str) (w : W)
        → remote (sync_proxy_cname casing api aid tid hostname w).1 ≡ remote w
    unfolding sync_proxy_cname
    sync_proxy_cname_leaves hostname w =
        continue_leaves (api.list_zones aid w)
          (λ zones.
            sync_in_zone casing api aid tid hostname
              (pick_zone casing hostname (or_default zones [])))
          (remote w) (list_zones_leaves aid w)
          (λ zones w1.
            sync_in_zone_leaves hostname (pick_zone casing hostname (or_default zones [])) w1)

    delete_proxy_cname_leaves :
        (hostname : Str) (w : W)
        → remote (delete_proxy_cname casing api aid hostname w).1 ≡ remote w
    unfolding delete_proxy_cname
    delete_proxy_cname_leaves hostname w =
        continue_leaves (api.list_zones aid w)
          (λ zones.
            delete_in_zone casing api aid hostname
              (pick_zone casing hostname (or_default zones [])))
          (remote w) (list_zones_leaves aid w)
          (λ zones w1.
            delete_in_zone_leaves hostname (pick_zone casing hostname (or_default zones [])) w1)

    -- The panel and the remote state behind a handler agree.
    abbrev Agrees : Panel × W → Type 0
    Agrees (p, w) = IsCurrent p.config w

    after_load-Agrees :
        (p : Panel) (w : W) (o : Result (Option TunnelConfig) × W)
        → IsRead w o
        → IsCurrent p.config w
        → Agrees (after_load numbers casing api tunnels aid tid p o)
    after_load-Agrees p w (ok r, w') h k = h.0
    after_load-Agrees p w (err e, w') h k = still-IsCurrent p.config w w' h k

    after_sync-Agrees :
        (p : Panel) (w : W) (o : Result (Unit {0}) × W)
        → remote o.1 ≡ remote w
        → IsCurrent p.config w
        → Agrees (after_sync numbers casing api tunnels aid tid p o)
    after_sync-Agrees p w (ok r, w') h k = still-IsCurrent p.config w w' h k
    after_sync-Agrees p w (err e, w') h k = still-IsCurrent p.config w w' h k

    after_sync_keeps :
        (p : Panel) (o : Result (Unit {0}) × W)
        → (after_sync numbers casing api tunnels aid tid p o).1 ≡ o.1
    after_sync_keeps p (ok r, w) = refl
    after_sync_keeps p (err e, w) = refl

    after_submit-Agrees :
        (values : PublicHostnameForm) (next : TunnelConfig) (p : Panel) (w : W)
        (o : Result (Option TunnelConfig) × W)
        → IsReplaced next w o
        → IsCurrent p.config w
        → Agrees (after_submit numbers casing api tunnels aid tid values next p o)
    after_submit-Agrees values next p w (err e, w') h k = still-IsCurrent p.config w w' h k
    after_submit-Agrees values next p w (ok r, w') h k =
        elim (Bool-cases (or_default values.manage_dns false)) [
          | inl e ↦ rw e (
              after_sync-Agrees (close_modal p (or_default r next)) w'
                (sync_proxy_cname casing api aid tid
                  (or_empty (form_to_ingress_rule numbers values).hostname) w')
                (sync_proxy_cname_leaves (or_empty (form_to_ingress_rule numbers values).hostname)
                  w')
                h.0)
          | inr e ↦ rw e h.0
        ]

    -- What is saved is what was sent, also behind the DNS requests.
    pub after_submit_stored :
        (values : PublicHostnameForm) (next : TunnelConfig) (p : Panel) (w : W)
        (r : Option TunnelConfig) (w' : W)
        → IsReplaced next w (ok r, w')
        → remote (after_submit numbers casing api tunnels aid tid values next p (ok r, w')).1 ≡ next
    after_submit_stored values next p w r w' h =
        elim (Bool-cases (or_default values.manage_dns false)) [
          | inl e ↦ rw e (
              ap remote (
                after_sync_keeps (close_modal p (or_default r next)) (
                  sync_proxy_cname casing api aid tid
                    (or_empty (form_to_ingress_rule numbers values).hostname) w'))
              ∙ sync_proxy_cname_leaves (or_empty (form_to_ingress_rule numbers values).hostname) w'
              ∙ h.1)
          | inr e ↦ rw e h.1
        ]

    after_delete-Agrees :
        (item : Row) (next : TunnelConfig) (p : Panel) (w : W)
        (o : Result (Option TunnelConfig) × W)
        → IsReplaced next w o
        → IsCurrent p.config w
        → Agrees (after_delete numbers casing api tunnels aid tid item next p o)
    after_delete-Agrees item next p w (err e, w') h k = still-IsCurrent p.config w w' h k
    after_delete-Agrees item next p w (ok r, w') h k =
        h.0 ∙ sym (delete_proxy_cname_leaves (or_empty item.0.hostname) w')

    after_drop-Agrees :
        (prev : Option TunnelConfig) (next : TunnelConfig) (p : Panel) (w : W)
        (o : Result (Option TunnelConfig) × W)
        → IsReplaced next w o
        → IsCurrent prev w
        → Agrees (after_drop numbers casing api tunnels aid tid prev next p o)
    after_drop-Agrees prev next p w (err e, w') h k = still-IsCurrent prev w w' h k
    after_drop-Agrees prev next p w (ok r, w') h k = h.0

    drop_row-Agrees :
        (from to : ℕ) (o : Option Row) (p : Panel) (w : W)
        → IsCurrent p.config w
        → Agrees (drop_row numbers casing api tunnels aid tid from to o p w)
    drop_row-Agrees from to none p w k = k
    drop_row-Agrees from to (some moved) p w k =
        let next = moved_config p from to moved in
        after_drop-Agrees p.config next (record p { config = some next }) w
          (tunnels.put_config aid tid next w) (service.put_config_replaces aid tid next w) k

    drop_from-Agrees :
        (o : Option ℕ) (to : ℕ) (p : Panel) (w : W)
        → IsCurrent p.config w
        → Agrees (drop_from numbers casing api tunnels aid tid o to p w)
    drop_from-Agrees none to p w k = k
    drop_from-Agrees (some from) to p w k = elim (Bool-cases (from == to)) [
      | inl e ↦ rw e k
      | inr e ↦ rw e (drop_row-Agrees from to (get_elem? (rows p) from) p w k)
    ]

    act-IsCurrent :
        (a : Action) (p : Panel) (w : W)
        → IsCurrent p.config w
        → Agrees (act numbers casing api tunnels aid tid a p w)
    unfolding act load handle_submit handle_delete handle_row_drop
    act-IsCurrent refresh p w k =
        after_load-Agrees (record p { loading = true }) w (tunnels.get_config aid tid w)
          (service.get_config_reads aid tid w) k
    act-IsCurrent open_add p w k = k
    act-IsCurrent (open_edit row) p w k = k
    act-IsCurrent cancel p w k = k
    act-IsCurrent (submit values) p w k =
        let next =
          submitted_config numbers casing api tunnels aid tid p
            (form_to_ingress_rule numbers values) in
        after_submit-Agrees values next p w (tunnels.put_config aid tid next w)
          (service.put_config_replaces aid tid next w) k
    act-IsCurrent (delete row) p w k =
        let next = remove_rule_at p.config (pos row.1) in
        after_delete-Agrees row next p w (tunnels.put_config aid tid next w)
          (service.put_config_replaces aid tid next w) k
    act-IsCurrent (drag_start i) p w k = k
    act-IsCurrent (drag_over i) p w k = elim (Option-cases p.drag) [
      | inl e ↦ rw e k
      | inr (from, e) ↦ rw e k
    ]
    act-IsCurrent drag_end p w k = k
    act-IsCurrent (row_drop i) p w k = elim (Option-cases p.drag) [
      | inl e ↦ rw e k
      | inr (from, e) ↦
          rw e (drop_from-Agrees (some from) i (record p { drag = none; over = none }) w k)
    ]

    -- In any sequence of handlers, each of which runs to its end before the next one begins, what the panel
    -- shows is what the tunnel has, whichever requests fail. Answers that overtake one another are outside it.
    pub acts-IsCurrent :
        (more : List Action) (p : Panel) (w : W)
        → IsCurrent p.config w
        → (let (p1, w1) = acts numbers casing api tunnels aid tid more p w in
            IsCurrent p1.config w1)
    acts-IsCurrent [] p w k = k
    acts-IsCurrent (a ∷ more) p w k =
        acts-IsCurrent more (act numbers casing api tunnels aid tid a p w).0
          (act numbers casing api tunnels aid tid a p w).1 (act-IsCurrent a p w k)
