-- ===== src/Ingress.antt =====
-- web/src/pages/cfIngress.ts: editing the public hostnames of a remote tunnel configuration.
pub mod Rules
pub mod Service
pub mod Hostname
pub mod Dns
pub mod Seconds
pub mod Origin
pub mod Form
pub mod Panel
pub mod Globals
pub mod Modal
mod Tests
