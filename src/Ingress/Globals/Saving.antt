-- ===== src/Ingress/Globals/Saving.antt =====
-- What web/src/components/cf/TunnelConfigTab.tsx saves of a configuration, loaded or not.
use cloudflared_manager.Base.{◌≡◌, refl, sym, ap, ◌∙◌, false, none, some, [], ◌∷◌, Str, or_default}
use cloudflared_manager.Api.Types.{TunnelConfig}
use cloudflared_manager.Api.Json.{Numbers}
use cloudflared_manager.Api.Reply.{Rejection, done, failed}
use cloudflared_manager.Ingress.Origin.{OriginForm, build_origin_request, origin_request_to_form}
use cloudflared_manager.Ingress.Origin.RoundTrip.{
  FiniteDurations, build_origin_request-origin_request_to_form,
}
use cloudflared_manager.Ingress.Globals.{
  get_config, put_config, GlobalTab, reload, loaded, edit_form, save, global_step, global_steps,
}

module _ (numbers : Numbers) (aid tid : Str) (p : GlobalTab) where
  -- A configuration whose originRequest was built of a form without infinite durations is saved as it was
  -- loaded, with the WARP flag written out.
  pub loaded-save :
      (config : TunnelConfig) (v : OriginForm)
      → FiniteDurations numbers v
      → config.origin_request ≡ build_origin_request numbers v
      → (global_steps numbers aid tid (reload ∷ loaded (done (some config)) ∷ save ∷ []) p).1
        ≡ get_config aid tid
          ∷ put_config aid tid
              (record config { warp_routing = some (or_default config.warp_routing false) })
          ∷ []
  unfolding global_steps global_step
  loaded-save config v finite e =
      let kept : build_origin_request numbers (origin_request_to_form numbers config.origin_request)
          ≡ config.origin_request =
        ap (λ o. build_origin_request numbers (origin_request_to_form numbers o)) e
        ∙ build_origin_request-origin_request_to_form numbers v finite
        ∙ sym e in
      ap
        (λ o.
          get_config aid tid
          ∷ put_config aid tid (record {
            ingress = config.ingress;
            origin_request = o;
            warp_routing = some (or_default config.warp_routing false);
          })
          ∷ [])
        kept

  -- Where nothing was loaded before and the load fails, a save of any form with WARP routing off
  -- sends a configuration without ingress rules.
  pub loaded-save_unloaded :
      (e : Rejection) (v : OriginForm)
      → p.base ≡ none
      → (next : TunnelConfig) × ((global_steps numbers aid tid
            (reload ∷ loaded (failed e) ∷ edit_form v false ∷ save ∷ [])
            p).1
          ≡ get_config aid tid ∷ put_config aid tid next ∷ [])
        × (next.ingress ≡ none)
  unfolding global_steps global_step
  loaded-save_unloaded e v h = (
    record {
      ingress = none;
      origin_request = build_origin_request numbers v;
      warp_routing = some false;
    },
    rw h refl,
    refl,
  )
