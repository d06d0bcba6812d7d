-- ===== src/Instance/Live.antt =====
-- web/src/components/instance/InstanceDetailPanel.tsx: the live status of the shown instance and its badge. Each run
-- of the effect is numbered; its `stop` is set once a later run has begun or the panel is gone, and its timer is
-- cleared then.
pub mod Late
use cloudflared_manager.Base.{
  ◌≡◌, ℕ, zero, suc, ◌+◌, Bool, true, false, not, ◌&&◌, Option, none, some, List, [], ◌∷◌, ◌++◌,
  if◌then◌else◌, ◌==◌, ltb, Str, codes, str_eq,
}
use cloudflared_manager.Api.Types.{Snapshot, Fields}
use cloudflared_manager.Api.Reply.{Rejection, Reply, done, failed}
use cloudflared_manager.Api.Client.Routes.{ApiCall, live}

-- What is read here of the status; the tabs show the rest.
pub record LiveStatus : Type 0 where
  pub running : Bool
  pub ha_connections : ℕ
  pub shown : Fields

pub data BadgeStatus : Type 0 where
  success processing warning neutral : BadgeStatus

abbrev started_badge : Option LiveStatus → BadgeStatus × Str
started_badge none = (processing, codes "运行中")
started_badge (some status) =
    if status.running && ltb 0 status.ha_connections
    then (success, codes "健康 · 已连边缘")
    else if status.running
    then (warning, codes "已启动 · 连接边缘中")
    else (processing, codes "运行中")

abbrev pub status_badge : Str → Option LiveStatus → BadgeStatus × Str
status_badge state status =
    if str_eq state (codes "started")
    then started_badge status
    else if str_eq state (codes "starting")
    then (processing, codes "启动中")
    else if str_eq state (codes "stopping")
    then (processing, codes "停止中")
    else (neutral, codes "已停止")

-- The instance and whether it runs, which the effect depends on, and the number of its run.
pub record LivePanel : Type 0 where
  pub id : Str
  pub running : Bool
  pub status : Option LiveStatus
  pub run : ℕ
  pub mounted : Bool

-- A request with the run of the effect that it belongs to.
pub data LiveRequest : Type 0 where
  fetch_live : ℕ → ApiCall → LiveRequest

-- `shown` is a rendering with the given snapshot, `tick` the timer of a run.
pub data LiveSignal : Type 0 where
  shown : Str → Str → LiveSignal
  answered : ℕ → Reply LiveStatus → LiveSignal
  tick : ℕ → LiveSignal
  left : LiveSignal

abbrev pub is_live : ℕ → LivePanel → Bool
is_live k p = k == p.run && p.mounted

abbrev pub same_bool : Bool → Bool → Bool
same_bool true b = b
same_bool false b = not b

-- The effect, where a dependency has changed.
abbrev pub on_shown : Str → Bool → LivePanel → LivePanel × List LiveRequest
on_shown id running p = if str_eq id p.id && same_bool running p.running then (p, []) else (
  record p { id = id; running = running; status = none; run = suc p.run },
  fetch_live (suc p.run) (live id) ∷ [],
)

abbrev pub on_live : Reply LiveStatus → LivePanel → LivePanel
on_live (done status) p = record p { status = some status }
on_live (failed e) p = record p { status = none }

unfoldable pub live_step : LiveSignal → LivePanel → LivePanel × List LiveRequest
live_step (shown id state) p = on_shown id (str_eq state (codes "started")) p
live_step (answered k r) p = (if is_live k p then on_live r p else p, [])
live_step (tick k) p = (p, if is_live k p && p.running then fetch_live k (live p.id) ∷ [] else [])
live_step left p = (record p { mounted = false }, [])

unfoldable pub live_steps : List LiveSignal → LivePanel → LivePanel × List LiveRequest
unfolding live_step
live_steps [] p = (p, [])
live_steps (s ∷ signals) p =
    let (p1, first) = live_step s p in
    let (p2, others) = live_steps signals p1 in (p2, first ++ others)
