-- ===== src/Crawler.antt =====
-- internal/crawler: fetching politely and at adaptive intervals.
pub mod Backoff
pub mod HostSemaphore
pub mod Robots
