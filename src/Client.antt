-- ===== src/Client.antt =====
-- The clients and their connection pools: include/httplib/client/ and lib/client/.
pub mod Pool
pub mod MultiPool
pub mod Http
