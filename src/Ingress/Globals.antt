-- ===== src/Ingress/Globals.antt =====
-- web/src/components/cf/TunnelConfigTab.tsx: the tab with the tunnel's own originRequest and WARP routing.
pub mod Saving
mod Tests
use cloudflared_manager.Base.{
  Bool, true, false, Option, none, some, List, [], ◌∷◌, ◌++◌, or_default, Str,
}
use cloudflared_manager.Api.Types.{TunnelConfig}
use cloudflared_manager.Api.Json.{Numbers}
use cloudflared_manager.Api.Reply.{err_msg, Reply, done, failed}
use cloudflared_manager.Ingress.Rules.{empty_config, base_of}
use cloudflared_manager.Ingress.Origin.{OriginForm, build_origin_request, origin_request_to_form}

pub data GlobalRequest : Type 0 where
  get_config : Str → Str → GlobalRequest
  put_config : Str → Str → TunnelConfig → GlobalRequest

pub data GlobalNotice : Type 0 where
  load_failed save_failed : Str → GlobalNotice
  config_saved : GlobalNotice

-- The state; the fields of the form but `warpRouting` are under `form`.
pub record GlobalTab : Type 0 where
  pub loading : Bool
  pub saving : Bool
  pub base : Option TunnelConfig
  pub form : OriginForm
  pub warp_routing : Bool
  pub notices : List GlobalNotice

pub data GlobalSignal : Type 0 where
  reload save : GlobalSignal
  loaded : Reply (Option TunnelConfig) → GlobalSignal
  edit_form : OriginForm → Bool → GlobalSignal
  saved : TunnelConfig → Reply (Option TunnelConfig) → GlobalSignal

abbrev pub remark : GlobalNotice → GlobalTab → GlobalTab
remark n p = record p { notices = n ∷ p.notices }

module _ (numbers : Numbers) (aid tid : Str) where
  abbrev pub on_config : Reply (Option TunnelConfig) → GlobalTab → GlobalTab
  on_config (failed e) p = remark (load_failed (err_msg e)) (record p { loading = false })
  on_config (done config) p = record p {
    base = some (base_of config);
    form = origin_request_to_form numbers (base_of config).origin_request;
    warp_routing = or_default (base_of config).warp_routing false;
    loading = false;
  }

  -- The configuration that `save` sends.
  abbrev pub global_config : GlobalTab → TunnelConfig
  global_config p = record {
    ingress = (base_of p.base).ingress;
    origin_request = build_origin_request numbers p.form;
    warp_routing = some p.warp_routing;
  }

  abbrev pub on_config_saved : TunnelConfig → Reply (Option TunnelConfig) → GlobalTab → GlobalTab
  on_config_saved next (failed e) p = remark (save_failed (err_msg e)) (record p { saving = false })
  on_config_saved next (done config) p =
      remark config_saved (record p { base = some (or_default config next); saving = false })

  -- `save` is a save whose form passed its validation; the tab loads when it is mounted.
  unfoldable pub global_step : GlobalSignal → GlobalTab → GlobalTab × List GlobalRequest
  global_step reload p = (record p { loading = true }, get_config aid tid ∷ [])
  global_step (loaded r) p = (on_config r p, [])
  global_step (edit_form v warp) p = (record p { form = v; warp_routing = warp }, [])
  global_step save p = (record p { saving = true }, put_config aid tid (global_config p) ∷ [])
  global_step (saved next r) p = (on_config_saved next r p, [])

  -- The tab and all requests behind a sequence of signals, the first request first.
  unfoldable pub global_steps : List GlobalSignal → GlobalTab → GlobalTab × List GlobalRequest
  unfolding global_step
  global_steps [] p = (p, [])
  global_steps (s ∷ signals) p =
      let (p1, first) = global_step s p in
      let (p2, others) = global_steps signals p1 in (p2, first ++ others)
