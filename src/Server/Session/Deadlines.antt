-- ===== src/Server/Session/Deadlines.antt =====
-- The deadlines of the stream in `http_task` (lib/server/session.cpp).
