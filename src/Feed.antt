-- ===== src/Feed.antt =====
-- internal/feed: the exchange of subscriptions with other readers.
pub mod Opml
