-- ===== src/Pagewatch.antt =====
-- internal/extract/pagewatch: watching one page and turning content changes into entries.
pub mod Diff
