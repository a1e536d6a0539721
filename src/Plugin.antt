-- ===== src/Plugin.antt =====
-- libs/plugin: the plugin registry, the loader and the status guard.
pub mod Types
pub mod Registry
pub mod Loader
pub mod Lifecycle
pub mod Dependencies
pub mod Guard
pub mod Tests
