-- ===== src/SysPlugins.antt =====
-- libs/sys-plugins: the services behind the plugins, over the repositories as parameters.
pub mod Tenants
pub mod Organizations
pub mod Passwords
pub mod Users
pub mod Auth
pub mod Roles
pub mod Permissions
pub mod PlainPasswords
mod Tests
