-- ===== src/Tests.antt =====
-- The properties at concrete inputs, one module for each part of the program.
mod Policies
mod Texts
mod Settings
mod Checkpoints
mod Brokers
mod Plugins
