-- ===== src/Monitor/Board.antt =====
-- web/src/pages/Dashboard.tsx: the events, the instances and the host's state that the dashboard shows.
pub mod Recent
use cloudflared_manager.Base.{
  ◌≡◌, ℕ, zero, suc, ◌+◌, Bool, true, false, ◌||◌, Option, none, some, List, [], ◌∷◌, ◌++◌,
  if◌then◌else◌, ◌==◌, or_default, Str, codes, is_empty, length, filter, str_eq,
}
use cloudflared_manager.Api.Types.{Number, Value, null, obj, str, Fields, Snapshot}
use cloudflared_manager.Api.Json.{Numbers, lookup, truthy, to_text, present}
use cloudflared_manager.Api.Reply.{Rejection, Reply, done, failed}
use cloudflared_manager.Events.Types.{
  EventType, instance_state, instance_error, proxy_status, proxy_connections, config_changed,
  config_deleted, log_line, alert, binary_update, BusEvent,
}
use cloudflared_manager.Monitor.Window.{pushed}
use cloudflared_manager.Monitor.Pump.{SystemInfo, NetSample, sample_of, rates}

pub record SparkPoint : Type 0 where
  pub t : ℕ
  pub cpu : Number
  pub mem : Number

pub record Board : Type 0 where
  pub loading : Bool
  pub sys_info : Option SystemInfo
  pub history : List SparkPoint
  pub configs : List Snapshot
  pub recent_events : List BusEvent
  pub prev_net : Option NetSample
  pub net_speed : Number × Number
  pub stopped : Bool

pub data BoardRequest : Type 0 where
  fetch_configs fetch_info : BoardRequest

-- `mounted` runs the effect, `tick` is its timer. `configs_answered` has the status of the response and its items;
-- `pumped` has the time of the answer.
pub data BoardSignal : Type 0 where
  seen : BusEvent → BoardSignal
  configs_answered : Reply (ℕ × Option (List Snapshot)) → BoardSignal
  pumped : ℕ → Reply SystemInfo → BoardSignal
  mounted tick left : BoardSignal

-- The events behind which the list of the instances may be another one.
abbrev pub is_list_event : EventType → Bool
is_list_event instance_state = true
is_list_event config_changed = true
is_list_event config_deleted = true
is_list_event _ = false

abbrev pub keep_events : ℕ
keep_events = 20

abbrev pub keep_points : ℕ
keep_points = 30

abbrev pub on_configs : Reply (ℕ × Option (List Snapshot)) → Board → Board
on_configs (failed e) p = p
on_configs (done (status, items)) p =
    if status == 200 then record p { configs = or_default items [] } else p

abbrev pub spark_of : ℕ → SystemInfo → SparkPoint
spark_of now data_ = record {
  t = now;
  cpu = or_default data_.cpu_usage 0;
  mem = or_default data_.memory_used 0;
}

module _ (per_second : ℕ → ℕ → Number) where
  -- A round of `pump` behind its request; the speed stays where the clock did not go on.
  abbrev pub on_pumped : ℕ → Reply SystemInfo → Board → Board
  on_pumped now (failed e) p = record p { loading = false }
  on_pumped now (done data_) p = record p {
    sys_info = some data_;
    net_speed = or_default (rates per_second p.prev_net (sample_of now data_)) p.net_speed;
    prev_net = some (sample_of now data_);
    history = pushed keep_points (spark_of now data_) p.history;
    loading = false;
  }

  unfoldable pub board_step : BoardSignal → Board → Board × List BoardRequest
  board_step (seen e) p = (
    record p { recent_events = pushed keep_events e p.recent_events },
    if is_list_event e.type_name then fetch_configs ∷ [] else [],
  )
  board_step (configs_answered r) p = (on_configs r p, [])
  board_step (pumped now r) p = (if p.stopped then p else on_pumped now r p, [])
  board_step mounted p = (p, fetch_configs ∷ fetch_info ∷ [])
  board_step tick p = (p, if p.stopped then [] else fetch_info ∷ [])
  board_step left p = (record p { stopped = true }, [])

  unfoldable pub board_steps : List BoardSignal → Board → Board × List BoardRequest
  unfolding board_step
  board_steps [] p = (p, [])
  board_steps (s ∷ signals) p =
      let (p1, first) = board_step s p in
      let (p2, others) = board_steps signals p1 in (p2, first ++ others)

-- `runningCount` and `errorCount`.
abbrev pub running_count : Board → ℕ
running_count p = length (filter (λ c. str_eq c.state (codes "started")) p.configs)

abbrev pub error_count : Board → ℕ
error_count p = length (filter (λ c. has_error c.last_error) p.configs)
  where
    has_error : Option Str → Bool
    has_error none = false
    has_error (some []) = false
    has_error (some (c ∷ s)) = true

module _ (numbers : Numbers) (stringify : Value → Str) where
  -- A value in a template.
  abbrev pub in_text : Option Value → Str
  in_text none = codes "undefined"
  in_text (some v) = to_text numbers v

  -- `String(v ?? '')`
  abbrev pub text_or_empty : Option Value → Str
  text_or_empty none = []
  text_or_empty (some null) = []
  text_or_empty (some v) = to_text numbers v

  abbrev pub tagged : Fields → Str
  tagged d =
      codes "["
      ++ (in_text (lookup (codes "type") d) ++ (codes "] " ++ in_text (lookup (codes "name") d)))

  abbrev pub summary_of : EventType → Fields → Str
  summary_of instance_state d =
      (if truthy (lookup (codes "prev_state") d)
        then in_text (lookup (codes "prev_state") d) ++ codes " → "
        else [])
      ++ in_text (lookup (codes "state") d)
  summary_of instance_error d = text_or_empty (lookup (codes "message") d)
  summary_of proxy_status d = tagged d ++ (codes " → " ++ in_text (lookup (codes "status") d))
  summary_of proxy_connections d =
      tagged d ++ (codes " 连接数=" ++ in_text (lookup (codes "cur_conns") d))
  summary_of log_line d = text_or_empty (lookup (codes "line") d)
  summary_of _ d = stringify (obj d)

  -- `eventSummary`, on an event whose data, if it has any, is an object.
  abbrev pub event_summary : EventType → Option Fields → Str
  event_summary t none = []
  event_summary t (some d) = summary_of t d

abbrev pub blank_board : Board
blank_board = record {
  loading = true;
  sys_info = none;
  history = [];
  configs = [];
  recent_events = [];
  prev_net = none;
  net_speed = (0, 0);
  stopped = false;
}
