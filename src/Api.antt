-- ===== src/Api.antt =====
-- web/src/api: the data that the client exchanges with the daemon, and the requests that it makes.
pub mod Types
pub mod Json
pub mod Update
pub mod Reply
pub mod Client
