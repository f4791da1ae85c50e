-- ===== src/Broker.antt =====
-- internal/broker: the projects that the broker serves, their secrets, and the requests it forwards.
pub mod Protocol
pub mod Base64
pub mod Projects
pub mod Secrets
pub mod Dispatch
pub mod Route
