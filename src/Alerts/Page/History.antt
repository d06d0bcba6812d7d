-- ===== src/Alerts/Page/History.antt =====
-- The history of alerts in web/src/pages/Alerts.tsx.
use cloudflared_manager.Base.{◌≡◌, refl, false, some, List, [], ◌∷◌, Str, str_eq}
use cloudflared_manager.Api.Types.{AlertEvent}
use cloudflared_manager.Api.Reply.{done}
use cloudflared_manager.Alerts.Page.{
  AlertPage, select_state, events_listed, alert_step, alert_steps,
}

-- Where the state asked for is changed twice and the first reply comes last, its events are shown as those
-- of the second state.
pub select_state_overtaken :
    (p : AlertPage) (first second : Str) (early late : List AlertEvent)
    → str_eq first p.event_state ≡ false
    → str_eq second first ≡ false
    → (let q =
          (alert_steps
            (select_state first
              ∷ select_state second
              ∷ events_listed (done (some late))
              ∷ events_listed (done (some early))
              ∷ [])
            p).0 in
        (q.event_state ≡ second) × (q.events ≡ early) × (q.loading_events ≡ false))
unfolding alert_steps alert_step
select_state_overtaken p first second early late h k = rw (h, k) (refl, refl, refl)
