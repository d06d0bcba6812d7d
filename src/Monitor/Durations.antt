-- ===== src/Monitor/Durations.antt =====
-- What the durations of web/src/pages/System.tsx, web/src/pages/Dashboard.tsx and
-- web/src/components/instance/format.ts say of the time.
use cloudflared_manager.Base.{ℕ, ◌+◌, ◌*◌, ◌/◌, ◌≤◌, ◌<◌, List, [], ◌∷◌, if◌then◌else◌, ltb, arith}
use cloudflared_manager.Monitor.{
  TimeUnit, days, hours, minutes, seconds, Part, dashboard_uptime, system_uptime, duration_parts,
}

-- The seconds of a unit, and of the parts of a text.
abbrev pub weight : TimeUnit → ℕ
weight days = 86400
weight hours = 3600
weight minutes = 60
weight seconds = 1

abbrev pub worth : List Part → ℕ
worth [] = 0
worth ((n, u) ∷ parts) = n * weight u + worth parts

-- The parts are what is left of the seconds where less than `step` is dropped.
abbrev pub IsWorth : ℕ → ℕ → List Part → Type 0
IsWorth step s parts = (worth parts ≤ s) × (s < worth parts + step)

-- How much a text may drop: an hour from a day on, a minute from a minute on, and nothing below.
abbrev pub grain : ℕ → ℕ
grain s = if ltb s 60 then 1 else if ltb s 86400 then 60 else 3600

dashboard_uptime-IsWorth : (s : ℕ) → IsWorth 60 s (dashboard_uptime s)
unfolding dashboard_uptime
dashboard_uptime-IsWorth s = ground arith

system_uptime-IsWorth : (s : ℕ) → IsWorth (grain s) s (system_uptime s)
unfolding system_uptime
system_uptime-IsWorth s = ground arith

duration_parts-IsWorth :
    (ms : ℕ) → IsWorth (if ltb ms 3600000 then 1 else 60) (ms / 1000) (duration_parts ms)
unfolding duration_parts
duration_parts-IsWorth ms = ground arith

-- The durations that the pages show are worth what they are given, but for what they drop: less than a
-- minute on the dashboard; on the system's page less than an hour from a day on and less than a minute from
-- a minute on; in the instance's panel less than a minute from an hour on. Below, they are exact.
pub durations_sound :
    (s ms : ℕ)
    → IsWorth 60 s (dashboard_uptime s)
      × IsWorth (grain s) s (system_uptime s)
      × IsWorth (if ltb ms 3600000 then 1 else 60) (ms / 1000) (duration_parts ms)
durations_sound s ms =
    (dashboard_uptime-IsWorth s, system_uptime-IsWorth s, duration_parts-IsWorth ms)
