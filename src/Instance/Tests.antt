-- ===== src/Instance/Tests.antt =====
-- Runs of the views of web/src/components/instance.
use cloudflared_manager.Base.{
  ◌≡◌, refl, ℕ, arith, true, Option, none, some, List, [], ◌∷◌, map, codes, Str,
}
use cloudflared_manager.Api.Types.{end, field, str, obj}
use cloudflared_manager.Api.Reply.{done}
use cloudflared_manager.Events.Types.{BusEvent, instance_state}
use cloudflared_manager.Instance.Live.{LivePanel, answered, tick, shown, live_steps}
use cloudflared_manager.Instance.Live.Late.{live_steps_late}
use cloudflared_manager.Instance.Timeline
use cloudflared_manager.Instance.Timeline.{TimelineSignal, seen, timeline_steps}
use cloudflared_manager.Instance.Timeline.Newest.{of_item, newest, timeline_steps-take}

abbrev panel_a : LivePanel
panel_a = record {
  id = codes "a";
  running = true;
  status = some (record { running = true; ha_connections = 4; shown = end });
  run = 2;
  mounted = true;
}

-- The answer to the earlier run comes after the other instance is shown.
live_steps_late_example :
    (live_steps
      (shown (codes "b") (codes "started")
        ∷ answered 2 (done (record { running = true; ha_connections = 1; shown = end }))
        ∷ tick 3
        ∷ [])
      panel_a).0.status
    ≡ none
live_steps_late_example =
    live_steps_late (codes "b") (codes "started") panel_a
      (answered 2 (done (record { running = true; ha_connections = 1; shown = end })) ∷ tick 3 ∷ [])
      refl (omega arith, (tt, tt))

abbrev started_event : Option Str → ℕ → BusEvent
started_event id n = record {
  seq = n;
  type_name = instance_state;
  config_id = id;
  ts = [];
  payload = some (obj (field (codes "state") (str (codes "started")) end));
}

-- The page changes to the instance b after an event of a; a later event of a does not show.
abbrev visits : List TimelineSignal
visits =
    seen (started_event (some (codes "a")) 1)
    ∷ Timeline.shown (codes "b")
    ∷ seen (started_event (some (codes "b")) 2)
    ∷ seen (started_event (some (codes "a")) 3)
    ∷ seen (started_event none 4)
    ∷ []

timeline_steps-take_example :
    let p = timeline_steps visits (record { id = codes "a"; items = [] }) in
    (p.id ≡ codes "b")
    × (map of_item p.items
        ≡ newest (codes "b") (
            started_event none 4
            ∷ started_event (some (codes "a")) 3
            ∷ started_event (some (codes "b")) 2
            ∷ []))
timeline_steps-take_example = timeline_steps-take visits (codes "a")
