-- ===== src/Config.antt =====
-- internal/config: the configuration values. A `*T` field is an `Option`, and an integer is a `ℤ`.
pub mod Values
pub mod Overrides
pub mod Project
pub mod Resolve
