-- ===== src/Plugin.antt =====
-- Plugins (alterchat-core/src/plugin.rs): manifests, policies and the host.
pub mod Types
pub mod Host
pub mod Gate
mod Tests
