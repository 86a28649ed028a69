-- ===== src/Bodies.antt =====
-- The message bodies of lib/body.
pub mod FormData
pub mod FileBody
pub mod AnyBody
