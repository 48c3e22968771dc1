-- ===== src/Tests.antt =====
-- Runs of the theorems on concrete inputs.
mod Auth
mod Pagewatch
mod Selector
mod Crawler
mod Feed
mod Fulltext
mod HostSemaphore
mod Accounts
mod Codec
mod Api
mod Unread
mod Pins
