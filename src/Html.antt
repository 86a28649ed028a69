-- ===== src/Html.antt =====
-- The parsers of lib/html.
pub mod QueryParams
pub mod Ranges
