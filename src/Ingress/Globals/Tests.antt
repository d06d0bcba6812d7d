-- ===== src/Ingress/Globals/Tests.antt =====
-- The theorems on web/src/components/cf/TunnelConfigTab.tsx at a tab that has just been mounted.
use cloudflared_manager.Base.{◌≡◌, refl, true, false, none, some, [], ◌∷◌, codes}
use cloudflared_manager.Api.Types.{TunnelConfig}
use cloudflared_manager.Api.Reply.{Rejection, done}
use cloudflared_manager.Ingress.Origin.Tests.{
  whole_numbers, origin_form, origin_form-FiniteDurations,
}
use cloudflared_manager.Ingress.Origin.{build_origin_request}
use cloudflared_manager.Ingress.Rules.{fallback_rule}
use cloudflared_manager.Ingress.Globals.{
  get_config, put_config, GlobalTab, reload, loaded, save, global_steps,
}
use cloudflared_manager.Ingress.Globals.Saving.{loaded-save}

abbrev mounted : GlobalTab
mounted = record {
  loading = true;
  saving = false;
  base = none;
  form = origin_form;
  warp_routing = false;
  notices = [];
}

abbrev lost : Rejection
lost = record { status = some 502; answer = none; text = some (codes "bad gateway") }

abbrev stored : TunnelConfig
stored = record {
  ingress = some (fallback_rule ∷ []);
  origin_request = build_origin_request whole_numbers origin_form;
  warp_routing = some true;
}

loaded-save_example :
    (global_steps whole_numbers
      (codes "acc")
      (codes "tun")
      (reload ∷ loaded (done (some stored)) ∷ save ∷ [])
      mounted).1
    ≡ get_config (codes "acc") (codes "tun")
      ∷ put_config (codes "acc") (codes "tun") (record stored { warp_routing = some true })
      ∷ []
loaded-save_example =
    loaded-save whole_numbers (codes "acc") (codes "tun") mounted stored origin_form
      origin_form-FiniteDurations refl
