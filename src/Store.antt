-- ===== src/Store.antt =====
-- internal/store: the tables of the SQLite database and the transactions on them.
pub mod Table
pub mod Unread
pub mod Accounts
