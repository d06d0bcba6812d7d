-- ===== src/Monitor/Tests.antt =====
-- The pages that watch the host and the events, on a few answers.
use cloudflared_manager.Base.{
  ◌≡◌, refl, ℕ, ◌*◌, ◌/◌, none, some, List, [], ◌∷◌, arith, if◌then◌else◌, ltb,
}
use cloudflared_manager.Api.Types.{end}
use cloudflared_manager.Api.Reply.{done, failed}
use cloudflared_manager.Events.Types.{BusEvent, EventType, instance_state, log_line}
use cloudflared_manager.Monitor.{
  dashboard_uptime, system_uptime, duration_parts, scale, days, hours, minutes,
}
use cloudflared_manager.Monitor.Durations.{IsWorth, grain, durations_sound}
use cloudflared_manager.Monitor.Sizes.{IsScaled, scale-IsScaled}
use cloudflared_manager.Monitor.Window.{last_of}
use cloudflared_manager.Monitor.Pump.{
  SystemInfo, SystemSignal, answered, unmounted, keep_history, system_steps,
}
use cloudflared_manager.Monitor.Pump
use cloudflared_manager.Monitor.Pump.History.{points_of, system_steps-last_of}
use cloudflared_manager.Monitor.Board
use cloudflared_manager.Monitor.Board.{BoardSignal, seen, pumped, mounted, tick, left, board_steps}
use cloudflared_manager.Monitor.Board.Recent.{events_of, asked, refreshes, board_steps-last_of}

-- Two hours, and a day with five minutes, of which the system's page drops the minutes.
uptime_test : dashboard_uptime 7200 ≡ (2, hours) ∷ (0, minutes) ∷ []
unfolding dashboard_uptime
uptime_test = refl

day_test : system_uptime 86700 ≡ (1, days) ∷ []
unfolding system_uptime
day_test = refl

scale_test : scale 5 1536 ≡ (1, 1024)
unfolding scale
scale_test = refl

durations_sound_example :
    IsWorth 60 86700 (dashboard_uptime 86700)
    × IsWorth (grain 86700) 86700 (system_uptime 86700)
    × IsWorth (if ltb 61000 3600000 then 1 else 60) (61000 / 1000) (duration_parts 61000)
durations_sound_example = durations_sound 86700 61000

scale-IsScaled_example : IsScaled 5 1536 (scale 5 1536)
scale-IsScaled_example = scale-IsScaled 5 1536 (omega arith)

abbrev host : ℕ → SystemInfo
host n = record {
  cpu_usage = none;
  memory_used = none;
  network = some (record { bytes_recv = some n; bytes_sent = none } ∷ []);
  shown = end;
}

abbrev answers : List SystemSignal
answers =
    answered 1000 (done (host 10))
    ∷ answered 3500 (failed (record { status = none; answer = none; text = none }))
    ∷ answered 6000 (done (host 30))
    ∷ unmounted
    ∷ answered 8500 (done (host 50))
    ∷ []

system_steps-last_of_example :
    (system_steps (λ n ms. n * 1000 / ms) answers Pump.blank_page).history
    ≡ last_of keep_history (points_of (λ n ms. n * 1000 / ms) none answers)
system_steps-last_of_example = system_steps-last_of (λ n ms. n * 1000 / ms) answers

abbrev bus_event : ℕ → EventType → BusEvent
bus_event n t = record { seq = n; type_name = t; config_id = none; ts = []; payload = none }

abbrev board_signals : List BoardSignal
board_signals =
    mounted
    ∷ seen (bus_event 1 log_line)
    ∷ pumped 1000 (done (host 10))
    ∷ seen (bus_event 2 instance_state)
    ∷ tick
    ∷ left
    ∷ []

board_steps-last_of_example :
    let out = board_steps (λ n ms. n * 1000 / ms) board_signals Board.blank_board in
    (out.0.recent_events ≡ last_of 20 (events_of board_signals))
    × (asked out.1 ≡ refreshes board_signals)
board_steps-last_of_example = board_steps-last_of (λ n ms. n * 1000 / ms) board_signals
