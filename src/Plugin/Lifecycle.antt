-- ===== src/Plugin/Lifecycle.antt =====
-- The methods of the plugin loader, by what they are about.
pub mod Loading
pub mod Startup
pub mod Configured
pub mod Unloading
pub mod Consistency
pub mod Keeping
pub mod StartupConsistency
pub mod Reachable
pub mod Switching
