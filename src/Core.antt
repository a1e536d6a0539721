-- ===== src/Core.antt =====
-- libs/core/src/lib: services that the plugins share.
pub mod Jwt
pub mod PlainJwt
pub mod Redis
pub mod MemoryRedis
pub mod Blacklist
pub mod Password
pub mod Hashing
pub mod Tests
