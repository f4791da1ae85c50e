-- ===== src/Session.antt =====
-- internal/session: the ports of a box.
pub mod Ports
