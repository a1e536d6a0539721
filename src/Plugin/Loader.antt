-- ===== src/Plugin/Loader.antt =====
-- libs/plugin/src/services/plugin-loader.service.ts. Each `await` is taken to resume with nothing
-- in between: two requests that interleave are not modelled. The logger and the argument
-- `systemPluginNames`, which is only logged, are left out.
mod Load
mod Unload
mod Switch
unfoldable pub use Load.*
unfoldable pub use Unload.*
unfoldable pub use Switch.*
