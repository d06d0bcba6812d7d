-- ===== src/Events.antt =====
-- web/src/events: the event stream of the daemon, its listeners and its WebSocket connection.
pub mod Types
pub mod Registry
pub mod Connection
mod Tests
