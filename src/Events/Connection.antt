-- ===== src/Events/Connection.antt =====
-- web/src/events/EventStreamContext.tsx: the WebSocket connection of `EventStreamProvider`. The
-- environment (sockets, timers, storage events, React's mounting) enters as a list of signals; each
-- handler is a function on the refs and the React state, which are one record. A socket is a number,
-- given out in order; it is live until its close event, and delivers messages until it is closing.
pub mod Backoff
pub mod Invariant
pub mod Overlap
use cloudflared_manager.Base.{
  ℕ, suc, ◌*◌, ◌^◌, ◌+◌, min, Bool, true, false, not, ◌&&◌, Option, none, some, List, [], ◌∷◌, ◌++◌,
  map, filter, if◌then◌else◌, ltb, ◌==◌,
}
use cloudflared_manager.Events.Types.{
  EventType, BusEvent, ConnState, idle, connecting, opened, closed, failed,
}

abbrev pub backoff_base_ms : ℕ
backoff_base_ms = 500

abbrev pub backoff_max_ms : ℕ
backoff_max_ms = 15000

-- A WebSocket that was made: the `since` in its URL, and whether `close()` was called on it.
pub record Socket : Type 0 where
  pub id : ℕ
  pub since : ℕ
  pub closing : Bool

-- The refs and the state of the provider, `token` for what `getAPIToken` returns, and of the outside
-- the sockets without a close event yet and the number of the next one. `timer` holds the delay of the
-- pending reconnect.
pub record Conn : Type 0 where
  pub phase : ConnState
  pub last_seq : ℕ
  pub last_event : Option BusEvent
  pub ws : Option ℕ
  pub seq : ℕ
  pub retries : ℕ
  pub timer : Option ℕ
  pub stopped : Bool
  pub token : Bool
  pub sockets : List Socket
  pub next : ℕ

abbrev pub initial : Bool → Conn
initial token = record {
  phase = idle;
  last_seq = 0;
  last_event = none;
  ws = none;
  seq = 0;
  retries = 0;
  timer = none;
  stopped = false;
  token = token;
  sockets = [];
  next = 0;
}

-- `Math.min(BACKOFF_BASE_MS * 2 ** attempt, BACKOFF_MAX_MS)`
unfoldable pub backoff : ℕ → ℕ
backoff attempt = min (backoff_base_ms * 2 ^ attempt) backoff_max_ms

abbrev pub is_some : Option ℕ → Bool
is_some none = false
is_some (some n) = true

unfoldable pub schedule_reconnect : Conn → Conn
schedule_reconnect c =
    if c.stopped
    then c
    else if is_some c.timer
    then c
    else record c { retries = c.retries + 1; timer = some (backoff c.retries) }

-- `made` tells whether the WebSocket constructor returns or throws.
unfoldable pub connect : Bool → Conn → Conn
unfolding schedule_reconnect
connect made c =
    if c.stopped
    then c
    else if not c.token
    then record c { phase = idle }
    else if made
    then record c {
      phase = connecting;
      ws = some c.next;
      sockets = record { id = c.next; since = c.seq; closing = false } ∷ c.sockets;
      next = c.next + 1;
    }
    else schedule_reconnect (record c { phase = failed })

-- `close()` on a socket: its close event comes later.
abbrev pub close_socket : Option ℕ → List Socket → List Socket
close_socket none sockets = sockets
close_socket (some id) sockets =
    map (λ (s : Socket). if s.id == id then record s { closing = true } else s) sockets

-- What the environment does. A frame that is no event is `none`.
pub data Signal : Type 0 where
  open_event : Signal
  message : Option BusEvent → Signal
  error_event : Signal
  close_event : ℕ → Signal
  timeout : Bool → Signal
  storage : Bool → Bool → Signal
  mount : Bool → Signal
  unmount : Signal

abbrev pub receive : BusEvent → Conn → Conn
receive e c =
    if ltb c.seq e.seq
    then record c { seq = e.seq; last_seq = e.seq; last_event = some e }
    else record c { last_event = some e }

-- The handlers: of the socket, of the timer, of the storage event and of the effect.
unfoldable pub handle : Signal → Conn → Conn
unfolding connect schedule_reconnect
handle open_event c = record c { retries = 0; phase = opened }
handle (message none) c = c
handle (message (some e)) c = receive e c
handle error_event c = record c { phase = failed }
handle (close_event id) c = schedule_reconnect (record c {
  ws = none;
  phase = closed;
  sockets = filter (λ (s : Socket). not (s.id == id)) c.sockets;
})
handle (timeout made) c = connect made (record c { timer = none })
handle (storage token made) c =
    connect made (record c { token = token; retries = 0; sockets = close_socket c.ws c.sockets })
handle (mount made) c = connect made (record c { stopped = false })
handle unmount c = record c {
  stopped = true;
  timer = none;
  sockets = close_socket c.ws c.sockets;
  ws = none;
}

unfoldable pub run : List Signal → Conn → Conn
unfolding handle
run [] c = c
run (s ∷ signals) c = run signals (handle s c)
