-- ===== src/Plugin.antt =====
-- internal/plugin: the inmates, their manifests and the registry that loads them.
pub mod Manifest
pub mod Hash
pub mod Registry
