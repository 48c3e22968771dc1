-- ===== src/Selector.antt =====
-- internal/extract/selector, and the crawl of a selector source in internal/crawler.
pub mod State
pub mod Extract
pub mod Crawl
