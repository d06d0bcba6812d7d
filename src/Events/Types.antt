-- ===== src/Events/Types.antt =====
-- web/src/events/types.ts: the events on the bus and the states of the connection. The payload under
-- `data` passes through unread, as a JSON value.
use cloudflared_manager.Base.{ℕ, Bool, Option, Str, ◌==◌}
use cloudflared_manager.Api.Types.{Value}

pub data EventType : Type 0 where
  instance_state instance_error proxy_status proxy_connections config_changed config_deleted
        log_line alert binary_update :
      EventType

pub record BusEvent : Type 0 where
  pub seq : ℕ
  pub type_name : EventType
  pub config_id : Option Str
  pub ts : Str
  pub payload : Option Value

pub data ConnState : Type 0 where
  idle connecting opened closed failed : ConnState

-- The key of a listener set: an event type, or '*'.
pub data Key : Type 0 where
  star : Key
  on : EventType → Key

abbrev pub type_rank : EventType → ℕ
type_rank instance_state = 0
type_rank instance_error = 1
type_rank proxy_status = 2
type_rank proxy_connections = 3
type_rank config_changed = 4
type_rank config_deleted = 5
type_rank log_line = 6
type_rank alert = 7
type_rank binary_update = 8

unfoldable pub key_rank : Key → ℕ
key_rank star = 9
key_rank (on t) = type_rank t

-- `===` on keys.
abbrev pub key_eq : Key → Key → Bool
key_eq j k = key_rank j == key_rank k
