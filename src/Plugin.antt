-- ===== src/Plugin.antt =====
-- src/congeries_core/plugin: the life cycle of Plugins and the registry of their capabilities.
pub mod Model
pub mod Lifecycle
pub mod Registry
