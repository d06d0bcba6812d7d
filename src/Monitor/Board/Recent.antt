-- ===== src/Monitor/Board/Recent.antt =====
-- What web/src/pages/Dashboard.tsx shows and asks for over any sequence of events and answers.
use cloudflared_manager.Base.{
  ◌≡◌, refl, ap, ◌∙◌, ℕ, ◌+◌, Bool, true, false, Option, List, [], ◌∷◌, ◌++◌, if◌then◌else◌, arith,
  if_intro, ◌==◌,
}
use cloudflared_manager.Api.Types.{Number, Snapshot}
use cloudflared_manager.Api.Reply.{Reply, done, failed}
use cloudflared_manager.Events.Types.{
  EventType, instance_state, instance_error, proxy_status, proxy_connections, config_changed,
  config_deleted, log_line, alert, binary_update, BusEvent,
}
use cloudflared_manager.Monitor.Window.{pushed, pushes, last_of, pushes-last_of}
use cloudflared_manager.Monitor.Board.{
  Board, BoardSignal, seen, configs_answered, pumped, mounted, tick, left, BoardRequest,
  fetch_configs, fetch_info, is_list_event, keep_events, on_configs, on_pumped, board_step,
  board_steps, blank_board,
}
use cloudflared_manager.Monitor.Pump.{SystemInfo}

-- The events that the dashboard saw.
abbrev pub events_of : List BoardSignal → List BusEvent
events_of [] = []
events_of (seen e ∷ signals) = e ∷ events_of signals
events_of (configs_answered r ∷ signals) = events_of signals
events_of (pumped now r ∷ signals) = events_of signals
events_of (mounted ∷ signals) = events_of signals
events_of (tick ∷ signals) = events_of signals
events_of (left ∷ signals) = events_of signals

-- The events behind which the instances may be other ones: a state, a changed and a deleted configuration.
abbrev pub changes_list : EventType → ℕ
changes_list instance_state = 1
changes_list instance_error = 0
changes_list proxy_status = 0
changes_list proxy_connections = 0
changes_list config_changed = 1
changes_list config_deleted = 1
changes_list log_line = 0
changes_list alert = 0
changes_list binary_update = 0

-- How often the instances are asked for, of the mounting and the events alone.
abbrev pub refreshes : List BoardSignal → ℕ
refreshes [] = 0
refreshes (seen e ∷ signals) = changes_list e.type_name + refreshes signals
refreshes (mounted ∷ signals) = 1 + refreshes signals
refreshes (_ ∷ signals) = refreshes signals

abbrev pub asked : List BoardRequest → ℕ
asked [] = 0
asked (fetch_configs ∷ requests) = 1 + asked requests
asked (fetch_info ∷ requests) = asked requests

asked-append : (rs qs : List BoardRequest) → asked (rs ++ qs) ≡ asked rs + asked qs
asked-append [] qs = omega arith
asked-append (fetch_configs ∷ rs) qs = omega (arith, asked-append rs qs)
asked-append (fetch_info ∷ rs) qs = omega (arith, asked-append rs qs)

asked_of_event :
    (t : EventType) → asked (if is_list_event t then fetch_configs ∷ [] else []) ≡ changes_list t
asked_of_event instance_state = refl
asked_of_event instance_error = refl
asked_of_event proxy_status = refl
asked_of_event proxy_connections = refl
asked_of_event config_changed = refl
asked_of_event config_deleted = refl
asked_of_event log_line = refl
asked_of_event alert = refl
asked_of_event binary_update = refl

asked_of_tick : (stopped : Bool) → asked (if stopped then [] else fetch_info ∷ []) ≡ 0
asked_of_tick true = refl
asked_of_tick false = refl

module _ (per_second : ℕ → ℕ → Number) where
  -- No other signal touches the events.
  abbrev HasEvents : Board → Board → Type 0
  HasEvents p q = q.recent_events ≡ p.recent_events

  configs-HasEvents :
      (r : Reply (ℕ × Option (List Snapshot))) (p : Board) → HasEvents p (on_configs r p)
  configs-HasEvents (failed e) p = refl
  configs-HasEvents (done (status, items)) p =
      if_intro (HasEvents p) (status == 200) _ _ (λ h. refl) (λ h. refl)

  on_pumped-HasEvents :
      (now : ℕ) (r : Reply SystemInfo) (p : Board) → HasEvents p (on_pumped per_second now r p)
  on_pumped-HasEvents now (failed e) p = refl
  on_pumped-HasEvents now (done data_) p = refl

  pumped-HasEvents :
      (now : ℕ) (r : Reply SystemInfo) (p : Board)
      → HasEvents p (if p.stopped then p else on_pumped per_second now r p)
  pumped-HasEvents now r p =
      if_intro (HasEvents p) p.stopped _ _ (λ h. refl) (λ h. on_pumped-HasEvents now r p)

  -- The window of a run from a board, and its requests.
  abbrev IsRecent : List BoardSignal → Board → Type 0
  IsRecent signals p =
      let out = board_steps per_second signals p in
      (out.0.recent_events ≡ pushes 20 (events_of signals) p.recent_events)
      × (asked out.1 ≡ refreshes signals)

  behind :
      (signals : List BoardSignal) (p q : Board)
      → HasEvents p q
      → IsRecent signals q
      → let out = board_steps per_second signals q in
        (out.0.recent_events ≡ pushes 20 (events_of signals) p.recent_events)
        × (asked out.1 ≡ refreshes signals)
  behind signals p q same (e, count) = (e ∙ ap (pushes 20 (events_of signals)) same, count)

  board_steps-IsRecent : (signals : List BoardSignal) (p : Board) → IsRecent signals p
  unfolding board_steps board_step
  board_steps-IsRecent [] p = (refl, refl)
  board_steps-IsRecent (seen e ∷ signals) p =
      let (same, count) =
        board_steps-IsRecent signals
          (record p { recent_events = pushed keep_events e p.recent_events }) in
      let requests =
        board_steps per_second signals
          (record p { recent_events = pushed keep_events e p.recent_events }) in
      (
        same,
        omega (
          arith,
          count,
          asked_of_event e.type_name,
          asked-append (if is_list_event e.type_name then fetch_configs ∷ [] else []) requests.1,
        ),
      )
  board_steps-IsRecent (configs_answered r ∷ signals) p =
      behind signals p (on_configs r p) (configs-HasEvents r p)
        (board_steps-IsRecent signals (on_configs r p))
  board_steps-IsRecent (pumped now r ∷ signals) p =
      let q = if p.stopped then p else on_pumped per_second now r p in
      behind signals p q (pumped-HasEvents now r p) (board_steps-IsRecent signals q)
  board_steps-IsRecent (mounted ∷ signals) p =
      let (same, count) = board_steps-IsRecent signals p in (same, omega (arith, count))
  board_steps-IsRecent (tick ∷ signals) p =
      let (same, count) = board_steps-IsRecent signals p in
      (
        same,
        omega (
          arith,
          count,
          asked_of_tick p.stopped,
          asked-append (if p.stopped then [] else fetch_info ∷ [])
              (board_steps per_second signals p).1,
        ),
      )
  board_steps-IsRecent (left ∷ signals) p =
      board_steps-IsRecent signals (record p { stopped = true })

  -- Whatever the order of the events and the answers, the dashboard shows the last twenty events, and it
  -- asks for the list of the instances once when it is mounted and once for each event of a state, or of a
  -- changed or deleted configuration.
  pub board_steps-last_of :
      (signals : List BoardSignal)
      → let out = board_steps per_second signals blank_board in
        (out.0.recent_events ≡ last_of 20 (events_of signals)) × (asked out.1 ≡ refreshes signals)
  board_steps-last_of signals =
      let (same, count) = board_steps-IsRecent signals blank_board in
      (same ∙ pushes-last_of 20 [] (events_of signals) (omega arith), count)
