-- ===== src/Instance.antt =====
-- web/src/components/instance: the views of one instance that keep a state of their own.
pub mod Live
pub mod Timeline
pub mod Metrics
mod Tests
