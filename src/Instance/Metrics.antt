-- ===== src/Instance/Metrics.antt =====
-- web/src/components/instance/InstanceMetrics.tsx and web/src/pages/Traffic.tsx: the traffic of an instance over a range of
-- time. Each run of the effect is numbered; a run is over once a later one has begun or the page is left. The rows
-- are shown whatever run they were asked by, the end of the loading by the run alone.
use cloudflared_manager.Base.{
  ℕ, suc, ◌-◌, ◌*◌, ◌/◌, Bool, true, false, not, ◌&&◌, Option, none, some, List, [], ◌∷◌, ◌++◌, map,
  find, if◌then◌else◌, ◌==◌, ltb, Str, codes, str_eq, or_default, or_else, or_empty,
}
use cloudflared_manager.Api.Types.{Number, Snapshot, num, str, Fields, end, field}
use cloudflared_manager.Api.Client.Routes.{ApiCall, traffic}

pub record Range : Type 0 where
  pub key : Str
  pub sec : ℕ
  pub step : ℕ

-- `RANGES` of the instance's view, and of the page.
abbrev pub instance_ranges : List Range
instance_ranges =
    record { key = codes "1h"; sec = 3600; step = 30 }
    ∷ record { key = codes "6h"; sec = 21600; step = 120 }
    ∷ record { key = codes "24h"; sec = 86400; step = 300 }
    ∷ []

abbrev pub page_ranges : List Range
page_ranges = instance_ranges ++ record { key = codes "7d"; sec = 604800; step = 3600 } ∷ []

abbrev first_range : Range
first_range = record { key = codes "1h"; sec = 3600; step = 30 }

-- `RANGES.find((r) => r.key === range) ?? RANGES[0]`
unfoldable pub range_of : List Range → Str → Range
range_of ranges key = or_default (find (λ r. str_eq r.key key) ranges) first_range

-- The counts of a point, which are natural numbers: `in` is the requests and `out` the errors.
pub record TrafficPoint : Type 0 where
  pub ts : ℕ
  pub requests : ℕ
  pub errors : ℕ
  pub conns : ℕ

pub record ChartRow : Type 0 where
  pub t : ℕ
  pub req_rate : Number
  pub err_rate : Number
  pub err_pct : Number
  pub conns : ℕ

-- A failed request: its status, the message at the top of its answer, and the error's own text. `none` is an
-- error that is not of axios, by its text.
pub record TrafficError : Type 0 where
  pub axios : Bool
  pub status : Option ℕ
  pub answer : Option Str
  pub text : Str

pub data Answer : Type 0 where
  points_of : Option (List TrafficPoint) → Answer
  failure_of : TrafficError → Answer

pub record Chart : Type 0 where
  pub instances : List Snapshot
  pub selected : Option Str
  pub range : Range
  pub rows : List ChartRow
  pub loading : Bool
  pub disabled : Bool
  pub err : Option Str
  pub run : ℕ
  pub left : Bool

pub data ChartRequest : Type 0 where
  fetch_traffic : ℕ → ApiCall → ChartRequest

-- `select` and `set_range` choose another instance or range, which restarts the effect; `due` is the timer of a run, and each carries the time in ms.
pub data ChartSignal : Type 0 where
  instances_listed : List Snapshot → ℕ → ChartSignal
  select : Str → ℕ → ChartSignal
  set_range : Str → ℕ → ChartSignal
  due : ℕ → ℕ → ChartSignal
  answered : ℕ → ℕ → Answer → ChartSignal
  unmounted : ChartSignal

-- Quotients of natural numbers and a double of an integer belong to the engine.
pub record Division : Type 0 where
  pub quotient : ℕ → ℕ → Number
  pub percent : ℕ → ℕ → Number
  pub of_nat : ℕ → Number

module _ (division : Division) where
  abbrev pub row_of : ℕ → TrafficPoint → ChartRow
  row_of step p = record {
    t = p.ts * 1000;
    req_rate = if ltb 0 step then division.quotient p.requests step else 0;
    err_rate = if ltb 0 step then division.quotient p.errors step else 0;
    err_pct = if ltb 0 p.requests then division.percent p.errors p.requests else 0;
    conns = p.conns;
  }

  abbrev is_503 : Option ℕ → Bool
  is_503 none = false
  is_503 (some s) = s == 503

  -- `load`, behind its request, with the step that it was called with.
  abbrev pub on_traffic : ℕ → Answer → Chart → Chart
  on_traffic step (points_of pts) p = record p {
    rows = map (row_of step) (or_default pts []);
    disabled = false;
    err = none;
  }
  on_traffic step (failure_of e) p =
      if e.axios && is_503 e.status
      then record p { disabled = true; rows = [] }
      else if e.axios
      then record p { err = some (or_else (or_empty e.answer) e.text) }
      else record p { err = some e.text }

  -- The parameters of the request; `now` is in milliseconds, and the range lies behind the epoch.
  abbrev pub traffic_params : Range → ℕ → Fields
  traffic_params r now =
      let to = now / 1000 in
      field (codes "scope") (str (codes "server")) (
        field (codes "from") (num (division.of_nat (to - r.sec))) (
          field (codes "to") (num (division.of_nat to))
            (field (codes "step") (num (division.of_nat r.step)) end)))

  abbrev pub is_running : ℕ → Chart → Bool
  is_running k p = k == p.run && not p.left

  -- A round of the effect's `run`.
  abbrev pub round : ℕ → Chart → Chart × List ChartRequest
  round now p = elim p.selected [
    | none ↦ (p, [])
    | some id ↦ (
      record p { loading = true },
      fetch_traffic p.run (traffic id (traffic_params p.range now)) ∷ [],
    )
  ]

  abbrev pub restart : ℕ → Chart → Chart × List ChartRequest
  restart now p = round now (record p { run = suc p.run })

  -- `cur ?? items.find((i) => i.state === 'started')?.id ?? items[0]?.id`
  abbrev pub first_choice : List Snapshot → Option Str
  first_choice [] = none
  first_choice (s ∷ items) =
      some (or_default (find (λ i. str_eq i.state (codes "started")) (s ∷ items)) s).id

  abbrev pub on_first_list : List Snapshot → ℕ → Chart → Chart × List ChartRequest
  on_first_list items now p = elim p.selected [
    | none ↦ restart now (record p { instances = items; selected = first_choice items })
    | some id ↦ (record p { instances = items }, [])
  ]

  abbrev pub on_due : ℕ → ℕ → Chart → Chart × List ChartRequest
  on_due k now p = if is_running k p then round now p else (p, [])

  unfoldable pub chart_step : ChartSignal → Chart → Chart × List ChartRequest
  chart_step (instances_listed items now) p = if p.left then (p, []) else on_first_list items now p
  chart_step (select id now) p = restart now (record p { selected = some id })
  chart_step (set_range key now) p = restart now (record p { range = range_of page_ranges key })
  chart_step (due k now) p = on_due k now p
  chart_step (answered k step a) p =
      let q = on_traffic step a p in
      (if is_running k q then record q { loading = false } else q, [])
  chart_step unmounted p = (record p { left = true }, [])
