-- ===== src/Ingress/Panel/Failures.antt =====
-- The panel of web/src/components/cf/PublicHostnamesTab.tsx where a request fails.
use mathlib.Core.Path.{subst}
use cloudflared_manager.Base.{
  ◌≡◌, refl, ap, ◌∙◌, true, Option, none, some, [], ◌∷◌, Str, get_elem?, Casing, Bool-cases, inl,
  inr, ◌==◌, ℕ,
}
use cloudflared_manager.Api.Types.{IngressRule, TunnelConfig}
use cloudflared_manager.Api.Json.{Numbers}
use cloudflared_manager.Ingress.Rules.{
  fallback_rule, append_hostname_rule, ensure_catch_all, is_catch_all,
}
use cloudflared_manager.Ingress.Dns.{Failure, ok, err, CfApi}
use cloudflared_manager.Ingress.Form.{PublicHostnameForm, form_to_ingress_rule}
use cloudflared_manager.Ingress.Panel.{
  Row, Panel, initial, TunnelApi, rows, moved_config, handle_row_drop, handle_submit, load,
  drop_from, drop_row, load_failed, refresh, open_add, submit, act, acts,
}
use cloudflared_manager.Ingress.Panel.Remote.{
  LeavesTunnels, IsTunnelService, IsReplaced, after_submit_stored,
}

-- The panel with the dialog opened behind a load that failed.
abbrev unloaded : Failure → Panel
unloaded e = record initial { modal_open = true; notices = load_failed e ∷ [] }

module _ (numbers : Numbers) (casing : Casing) {W : Type 0} (api : CfApi W) (tunnels : TunnelApi W)
    (aid tid : Str) where
  drop_row_undone :
      (from to : ℕ) (o : Option Row) (p : Panel) (w : W)
      → ((next : TunnelConfig)
          → (e : Failure) × (w' : W) × (tunnels.put_config aid tid next w ≡ (err e, w')))
      → (drop_row numbers casing api tunnels aid tid from to o p w).0.config ≡ p.config
  drop_row_undone from to none p w h = refl
  drop_row_undone from to (some moved) p w h =
      let (e, w', q) = h (moved_config p from to moved) in rw q refl

  drop_from_undone :
      (o : Option ℕ) (to : ℕ) (p : Panel) (w : W)
      → ((next : TunnelConfig)
          → (e : Failure) × (w' : W) × (tunnels.put_config aid tid next w ≡ (err e, w')))
      → (drop_from numbers casing api tunnels aid tid o to p w).0.config ≡ p.config
  drop_from_undone none to p w h = refl
  drop_from_undone (some from) to p w h = elim (Bool-cases (from == to)) [
    | inl e ↦ rw e refl
    | inr e ↦ rw e (drop_row_undone from to (get_elem? (rows p) from) p w h)
  ]

  -- A drop whose request fails leaves the panel showing the configuration from before it.
  pub handle_row_drop_undone :
      (to : ℕ) (p : Panel) (w : W)
      → ((next : TunnelConfig)
          → (e : Failure) × (w' : W) × (tunnels.put_config aid tid next w ≡ (err e, w')))
      → (handle_row_drop numbers casing api tunnels aid tid to p w).0.config ≡ p.config
  unfolding handle_row_drop
  handle_row_drop_undone to p w h =
      drop_from_undone p.drag to (record p { drag = none; over = none }) w h

  -- Without a configuration to add to, a new rule is all that is sent.
  append_unloaded :
      (rule : IngressRule)
      → (append_hostname_rule none rule).ingress ≡ some (rule ∷ fallback_rule ∷ [])
  unfolding append_hostname_rule ensure_catch_all is_catch_all
  append_unloaded rule = refl

  module _ (remote : W → TunnelConfig) (leaves : LeavesTunnels remote api)
      (service : IsTunnelService remote tunnels) where
    -- Where loading fails, a hostname that is added then replaces every rule that the tunnel had.
    pub acts_unloaded_lost :
        (values : PublicHostnameForm) (w w1 w2 : W) (e : Failure) (r : Option TunnelConfig)
        → tunnels.get_config aid tid w ≡ (err e, w1)
        → tunnels.put_config aid tid
            (append_hostname_rule none (form_to_ingress_rule numbers values))
            w1
          ≡ (ok r, w2)
        → (remote
            (acts numbers casing api tunnels aid tid
              (refresh ∷ open_add ∷ submit values ∷ [])
              initial
              w).1).ingress
          ≡ some (form_to_ingress_rule numbers values ∷ fallback_rule ∷ [])
    unfolding act load handle_submit
    acts_unloaded_lost values w w1 w2 e r failed sent =
        let rule = form_to_ingress_rule numbers values in
        let next = append_hostname_rule none rule in
        let replaced =
          subst (IsReplaced remote next w1) sent (service.put_config_replaces aid tid next w1) in
        rw (failed, sent)
          (ap (λ c. c.ingress)
              (after_submit_stored remote numbers casing api tunnels aid tid leaves service values
                next (unloaded e) w1 r w2 replaced)
            ∙ append_unloaded rule)
