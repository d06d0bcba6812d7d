-- ===== src/Logs/Stream.antt =====
-- web/src/components/instance/InstanceLogPanel.tsx: the panel's state and the WebSocket behind it. The
-- environment enters as a list of signals, as in Events/Connection. Every run of the effect is numbered;
-- its `closedByUs` is set as soon as a later run or the unmounting has cleaned it up.
pub mod Buffer
pub mod Reconnect
use cloudflared_manager.Base.{
  ℕ, suc, ◌+◌, ◌-◌, Bool, true, false, not, ◌&&◌, ◌||◌, Option, none, some, List, [], ◌∷◌, ◌++◌,
  map, length, drop, if◌then◌else◌, ltb, leb, ◌==◌, filter, Str, codes,
}
use cloudflared_manager.Logs.{LogEntry}

abbrev pub max_buffer : ℕ
max_buffer = 5000

-- `WsState`
pub data Phase : Type 0 where
  connecting opened closed : Phase

-- A WebSocket without a close event yet, and the run of the effect that made it.
pub record Socket : Type 0 where
  pub id : ℕ
  pub effect : ℕ
  pub closing : Bool

pub record Panel : Type 0 where
  pub entries : List LogEntry
  pub level : Str
  pub keyword : Str
  pub paused : Bool
  pub follow : Bool
  pub wrap : Bool
  pub show_ts : Bool
  pub new_count : ℕ
  pub phase : Phase
  pub ws : Option ℕ
  pub last_seq : ℕ
  pub effect : ℕ
  pub mounted : Bool
  pub retry : Bool
  pub sockets : List Socket
  pub next : ℕ

abbrev pub initial : Panel
initial = record {
  entries = [];
  level = [];
  keyword = [];
  paused = false;
  follow = true;
  wrap = true;
  show_ts = true;
  new_count = 0;
  phase = connecting;
  ws = none;
  last_seq = 0;
  effect = 0;
  mounted = false;
  retry = false;
  sockets = [];
  next = 0;
}

-- The loop over a frame: the last number seen, the lines that are new.
pub new_lines : ℕ → List LogEntry → ℕ × List LogEntry
new_lines last [] = (last, [])
new_lines last (e ∷ es) =
    let seen = new_lines last es in
    let (newest, fresh) = new_lines e.seq es in if leb e.seq last then seen else (newest, e ∷ fresh)

-- `if (merged.length > MAX_BUFFER) merged.splice(0, merged.length - MAX_BUFFER)`
abbrev pub cap_lines : List LogEntry → List LogEntry
cap_lines merged =
    if ltb max_buffer (length merged) then drop (length merged - max_buffer) merged else merged

-- The body of `setEntries` in `onmessage`.
pub merge_lines : ℕ × List LogEntry → Panel → Panel
merge_lines (newest, []) p = record p { last_seq = newest }
merge_lines (newest, e ∷ fresh) p = record p {
  last_seq = newest;
  entries = cap_lines (p.entries ++ e ∷ fresh);
  new_count = if p.follow then p.new_count else p.new_count + length (e ∷ fresh);
}

pub receive : List LogEntry → Panel → Panel
unfolding new_lines merge_lines
receive frame p = if p.paused then p else merge_lines (new_lines p.last_seq frame) p

-- `made` tells whether the WebSocket constructor returns or throws.
pub connect : Bool → Panel → Panel
connect made p =
    if made
    then record p {
      phase = connecting;
      ws = some p.next;
      sockets = record { id = p.next; effect = p.effect; closing = false } ∷ p.sockets;
      next = p.next + 1;
    }
    else record p { phase = closed }

abbrev pub close_socket : Option ℕ → List Socket → List Socket
close_socket none sockets = sockets
close_socket (some id) sockets =
    map (λ (s : Socket). if s.id == id then record s { closing = true } else s) sockets

-- The function that the effect returns.
abbrev pub clean_up : Panel → Panel
clean_up p = record p { retry = false; sockets = close_socket p.ws p.sockets; ws = none }

-- The effect, for a new id or level.
abbrev pub subscribe : Bool → Panel → Panel
subscribe made p =
    connect made (record p {
      entries = [];
      last_seq = 0;
      new_count = 0;
      effect = p.effect + 1;
      mounted = true;
    })

-- What the environment does; a socket's handlers belong to the run of the effect that made it. A frame
-- that is no list of lines is the empty one.
pub data Signal : Type 0 where
  mount : Bool → Signal
  change_level : Str → Bool → Signal
  change_id : Bool → Signal
  unmount : Signal
  open_event : Signal
  message : List LogEntry → Signal
  close_event : Socket → Signal
  timeout : Bool → Signal
  scrolled : Bool → Signal
  jump : Signal
  clear : Signal
  toggle_pause : Signal
  set_keyword : Str → Signal
  set_wrap : Bool → Signal
  set_show_ts : Bool → Signal

-- `onScroll`, at the bottom or not.
abbrev pub on_scroll : Bool → Panel → Panel
on_scroll true p = if not p.follow then record p { follow = true; new_count = 0 } else p
on_scroll false p = if p.follow then record p { follow = false } else p

-- `closedByUs` of a run of the effect
abbrev pub closed_by_us : ℕ → Panel → Bool
closed_by_us effect p = not p.mounted || not (effect == p.effect)

unfoldable pub handle : Signal → Panel → Panel
unfolding connect receive
handle (mount made) p = subscribe made p
handle (change_level level made) p = subscribe made (clean_up (record p { level = level }))
handle (change_id made) p = subscribe made (clean_up p)
handle unmount p = record (clean_up p) { mounted = false }
handle open_event p = record p { phase = opened }
handle (message frame) p = receive frame p
handle (close_event s) p = record p {
  phase = closed;
  sockets = filter (λ (t : Socket). not (t.id == s.id)) p.sockets;
  retry = p.retry || not (closed_by_us s.effect p);
}
handle (timeout made) p = connect made (record p { retry = false })
handle (scrolled at_bottom) p = on_scroll at_bottom p
handle jump p = record p { follow = true; new_count = 0 }
handle clear p = record p { entries = []; new_count = 0 }
handle toggle_pause p = record p { paused = not p.paused }
handle (set_keyword keyword) p = record p { keyword = keyword }
handle (set_wrap wrap) p = record p { wrap = wrap }
handle (set_show_ts show_ts) p = record p { show_ts = show_ts }

unfoldable pub run : List Signal → Panel → Panel
unfolding handle
run [] p = p
run (s ∷ signals) p = run signals (handle s p)
