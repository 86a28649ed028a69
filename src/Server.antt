-- ===== src/Server.antt =====
-- The server: lib/server/ and include/httplib/server/.
pub mod MountPoint
pub mod Request
pub mod Response
pub mod Router
pub mod Session
pub mod Accepting
pub mod WebSocket
