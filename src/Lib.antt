-- ===== src/Lib.antt =====
-- feedla is a multi-user feed reader in Go: a crawler fetches feeds and watched pages, a SQLite
-- store keeps entries and each user's state of them, and an HTTP API serves a web client. This
-- library models the parts that carry its own logic and proves what makes them correct. Paths
-- are from the repository's root.
--
-- Store.Unread (internal/store/entries.go, subscriptions.go, ignore_words.go, pins.go, gc.go):
--   the tables are lists of rows in one record, Db. UpsertEntries and UpsertSubscription are in
--   Fanout, the three calls that mark entries read in Unread itself, retention in Gc, ignore
--   words in Words, whose INSERT and DELETE stay where the recomputation after them fails, pins
--   in Pins. Reachable has all of them as steps. Each subscription caches its number of unread
--   entries, and every call refreshes the caches it made stale.
-- Store.Accounts (internal/store/users.go, sessions.go, invitations.go): accounts, browser
--   sessions and invitations; Reachable has their calls as steps from what the migrations leave.
--   Store.Table holds UPDATE, DELETE, COUNT, the next row id and the result of a transaction: one
--   that fails is rolled back, so it has no new tables.
-- Pagewatch (internal/extract/pagewatch/diff.go): the diff of two sequences of blocks: LCS up to
--   2000 blocks, counts above, and the cancellation of moved blocks.
-- Selector (internal/extract/selector/state.go, selector.go, config.go and
--   internal/crawler/scrape_selector.go): the history of imported articles of a listing page, what
--   is new on it, and the crawl of the new articles with a bounded number of tries.
-- Crawler.Robots (internal/crawler/robots.go): robots.txt from its text to the verdict on a
--   path.
-- Feed.Opml (internal/feed/opml.go, export.go): subscriptions as an OPML document and back.
-- Crawler.HostSemaphore (internal/crawler/hostsem.go): the slots and gaps of a host as a step
--   relation, in which the calls of many tasks interleave.
-- Crawler.Backoff (internal/crawler/backoff.go): the interval to the next fetch of a feed.
-- Auth (internal/auth/action_limiter.go, ratelimit.go, password.go, token.go): the limiter of
--   actions by fixed windows, that of logins by account backoff and by address, and password hashes
--   in the PHC format (Password).
-- Api (internal/api/auth.go, auth_middleware.go, cookie.go, helpers.go, admin.go, invitations.go,
--   with internal/store/api_tokens.go in Store.Accounts.Tokens): each handler is a function of
--   the server's state, the request and its decoded body to the new state and a response.
--   Middleware is the gate before every handler, Login the login and the setup, Settings what
--   users change of their own account, Restore, Tokens and Admin the rest. Login asks the limiter
--   of Auth, verifies the password and calls Store.Accounts. Pins (pins.go, quota.go, the pins of
--   ldr.go) has pins behind their quota, over the tables of Store.Unread: its handlers
--   count and write in two calls of the store, and Pins.Requests has the halves of many requests
--   as steps in any order.
-- Fulltext.Boilerplate (internal/fulltext/boilerplate/boilerplate.go,
--   internal/crawler/boilerplate.go): what a feed's article pages have in common. The state
--   counts signatures, Page has the tree with its digests and the removal, Session a crawl's use
--   of both with the fallback to the page as fetched.
-- Prelude has what the others share: Boolean tests, lists measured by native numbers, and Go's
-- maps as association lists. Tests runs the theorems on concrete inputs.
--
-- Numbers are natural: times are Unix seconds or nanoseconds, ids are positive, and `now` is an
-- argument of each call. The int64 wrap-around is written out where a shift could reach it, in
-- Crawler.Backoff; elsewhere the numbers stay far below it. A call under a mutex, a statement
-- and a transaction are one step each; the store has a single writing connection. A handler of
-- accounts or logins is one step of the server, too; where the calls of a handler interleave
-- with others, in Pins, it takes the tables that each call finds. Every loop here runs over a
-- list or a tree, so no fuel is needed. Parameters stand for code outside the repository: LIKE,
-- COLLATE NOCASE, strings.TrimSpace and ToLower, encoding/json, base64, argon2id, SHA-256, NFKC,
-- html.Parse and html.Render, net/url, the fetch and the extraction of an article. Errors of the
-- disk and the network are left out but where the code turns them into a value.
--
-- Not modelled: the HTML walks of pagewatch and selector, the fetcher and the crawl loop, the
-- read queries of the store, migrations, the rest of the HTTP API, the import of OPML into the
-- store, backups, configuration and the web client. The texts of error responses are kept but for
-- those of store errors.
pub mod Prelude
pub mod Api
pub mod Auth
pub mod Pagewatch
pub mod Selector
pub mod Crawler
pub mod Feed
pub mod Fulltext
pub mod Store
pub mod Tests
