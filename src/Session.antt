-- ===== src/Session.antt =====
-- libs/mcp-server/src/lib/session: sessions, their storage and their manager.
pub mod Storage
pub mod Memory
pub mod Manager
pub mod Tests
