-- ===== src/Fulltext.antt =====
-- The extraction of article bodies: internal/fulltext.
pub mod Boilerplate
