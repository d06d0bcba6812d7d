-- ===== src/Instance/Timeline.antt =====
-- web/src/components/instance/InstanceEvents.tsx: the events of the shown instance, the newest one first. What is read
-- of an event's data is taken to be text, where it is there.
pub mod Newest
use cloudflared_manager.Base.{
  ◌≡◌, ℕ, Bool, true, false, not, ◌&&◌, Option, none, some, List, [], ◌∷◌, ◌++◌, if◌then◌else◌, Str,
  codes, str_eq, is_empty, take, or_empty,
}
use cloudflared_manager.Api.Types.{Value, null, bool, num, str, arr, obj}
use cloudflared_manager.Api.Json.{lookup, fields_of}
use cloudflared_manager.Events.Types.{
  EventType, instance_state, instance_error, proxy_status, proxy_connections, config_changed,
  config_deleted, log_line, alert, binary_update, BusEvent,
}

pub record Item : Type 0 where
  pub seq : ℕ
  pub ts : Str
  pub color : Str
  pub label : Str
  pub detail : Option Str

pub record Timeline : Type 0 where
  pub id : Str
  pub items : List Item

pub data TimelineSignal : Type 0 where
  shown : Str → TimelineSignal
  seen : BusEvent → TimelineSignal

abbrev pub as_text : Option Value → Option Str
as_text (some (str s)) = some s
as_text _ = none

abbrev pub read_field : Str → BusEvent → Option Str
read_field k e = as_text (lookup k (fields_of e.payload))

-- `STATE_ZH[st] ?? st`
abbrev pub state_zh : Str → Str
state_zh st =
    if str_eq st (codes "started")
    then codes "已启动"
    else if str_eq st (codes "stopped")
    then codes "已停止"
    else if str_eq st (codes "starting")
    then codes "启动中"
    else if str_eq st (codes "stopping")
    then codes "停止中"
    else st

abbrev pub state_color : Str → Str
state_color st =
    if str_eq st (codes "started")
    then codes "green"
    else if str_eq st (codes "stopped")
    then codes "red"
    else codes "blue"

abbrev pub item_with : BusEvent → Str → Str → Option Str → Item
item_with e color label detail = record {
  seq = e.seq;
  ts = e.ts;
  color = color;
  label = label;
  detail = detail;
}

abbrev pub alert_item : BusEvent → Item
alert_item e =
    let firing = str_eq (or_empty (read_field (codes "state") e)) (codes "firing") in
    item_with e (if firing then codes "red" else codes "green")
      (if firing then codes "告警触发" else codes "告警恢复") (read_field (codes "rule_name") e)

abbrev pub state_item : BusEvent → Item
state_item e =
    let st = or_empty (read_field (codes "state") e) in
    item_with e (state_color st) (codes "状态 → " ++ state_zh st) none

-- The item of an event, for the types that the view subscribes to.
abbrev pub kind_item : EventType → BusEvent → Option Item
kind_item instance_state e = some (state_item e)
kind_item instance_error e =
    some (item_with e (codes "red") (codes "错误") (read_field (codes "message") e))
kind_item config_changed e = some (item_with e (codes "blue") (codes "配置已变更") none)
kind_item alert e = some (alert_item e)
kind_item _ e = none

-- `e.config_id && e.config_id !== id`
abbrev pub is_foreign : Str → BusEvent → Bool
is_foreign id e = not (is_empty (or_empty e.config_id)) && not (str_eq (or_empty e.config_id) id)

unfoldable pub item_for : Str → BusEvent → Option Item
item_for id e = if is_foreign id e then none else kind_item e.type_name e

abbrev pub keep_items : ℕ
keep_items = 100

abbrev pub add_item : Option Item → List Item → List Item
add_item none items = items
add_item (some it) items = take keep_items (it ∷ items)

unfoldable pub timeline_step : TimelineSignal → Timeline → Timeline
timeline_step (shown id) p = if str_eq id p.id then p else record { id = id; items = [] }
timeline_step (seen e) p = record p { items = add_item (item_for p.id e) p.items }

unfoldable pub timeline_steps : List TimelineSignal → Timeline → Timeline
unfolding timeline_step
timeline_steps [] p = p
timeline_steps (s ∷ signals) p = timeline_steps signals (timeline_step s p)
