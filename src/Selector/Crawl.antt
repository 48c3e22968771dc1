-- ===== src/Selector/Crawl.antt =====
-- internal/crawler/scrape_selector.go: `extractSelectorPage` behind the decoding of the listing
-- page and the extraction of its candidates. What the crawl does with an article URL is given by a
-- record of operations: robots.txt, the fetch, the charset decoding, and the extraction of the
-- article. Each URL is asked once in a crawl, so they are functions of the URL.
pub mod Retry
pub mod Shown
use feedla.Prelude.{
  ℕ, suc, ◌+◌, String, string_discrete, Bool, true, false, not, Option, none, some, List, [], ◌∷◌,
  map, ltb, leb, ◌==◌, if◌then◌else◌, ite, length, take,
}
use feedla.Prelude.Dict
use feedla.Prelude.Dict.{Dict}
use feedla.Selector.State.{State, CommitInput, count_at, commit, parse_state}
use feedla.Selector.Extract.{Item, Candidate, extract_result}

abbrev pub max_article_retries : ℕ
max_article_retries = 3

abbrev pub default_max_items_per_crawl : ℕ
default_max_items_per_crawl = 20

abbrev pub max_max_items_per_crawl : ℕ
max_max_items_per_crawl = 50

abbrev pub max_candidates : ℕ
max_candidates = 500

abbrev pub status_ok : ℕ
status_ok = 200

abbrev pub min_fulltext_chars : ℕ
min_fulltext_chars = 200

-- `Config.MaxItemsPerCrawlEffective`; a negative setting is 0 here, with the same result.
unfoldable pub max_items_effective : ℕ → ℕ
max_items_effective n =
    if n == 0
    then default_max_items_per_crawl
    else if ltb max_max_items_per_crawl n
    then max_max_items_per_crawl
    else n

-- `Config.FulltextEnabled`
unfoldable pub fulltext_enabled : Option Bool → Bool
fulltext_enabled none = true
fulltext_enabled (some b) = b

unfoldable pub give_up : ℕ → Bool
give_up prev_failures = leb max_article_retries (prev_failures + 1)

-- `ensurePublished`
unfoldable pub ensure_published : Item → ℕ → Item
ensure_published item now = record item { published = some (date item.published) }
  where
    date : Option ℕ → ℕ
    date none = now
    date (some t) = t

pub record Article : Type 0 where
  pub title : String
  pub content : String
  pub text_len : ℕ

pub record Response : Type 0 where
  pub status : ℕ
  pub body : String
  pub content_type : String

-- What the crawl asks of the rest of the program: `allowed` is robots.txt, `fetch` gives none on an
-- error, as `decode` and `extract` do; `page_title` is `htmlPageTitle`, `path_tail` `urlPathTail`
-- and `published_in` `fulltext.ExtractPublished`.
pub record ArticleOps : Type 0 where
  pub allowed : String → Bool
  pub fetch : String → Option Response
  pub decode : String → String → Option String
  pub extract : String → String → Option Article
  pub page_title : String → String
  pub path_tail : String → String
  pub published_in : String → ℕ → Option ℕ

abbrev pub or_title : String → String → String
or_title title other = ite (string_discrete title "") other title

abbrev pub with_article : Item → Option Article → Item
with_article item none = item
with_article item (some article) = record item {
  content = if leb min_fulltext_chars article.text_len then article.content else item.content;
  title = or_title item.title article.title;
}

abbrev pub or_published : Option ℕ → Option ℕ → Option ℕ
or_published none other = other
or_published (some t) other = some t

-- `applySelectorArticleContent`
unfoldable pub apply_article : ArticleOps → Item → String → ℕ → Item
unfolding ensure_published
apply_article ops item article_body now =
    ensure_published
      (record item' {
        title =
            or_title (or_title item'.title (ops.page_title article_body)) (ops.path_tail item.link);
        published = or_published item.published (ops.published_in article_body now);
      })
      now
  where
    item' : Item
    item' = with_article item (ops.extract item.link article_body)

-- What becomes of one article: an item, or a failure that is tried again.
unfoldable pub handle_response : ArticleOps → ℕ → Item → ℕ → Option Response → Option Item
unfolding give_up ensure_published apply_article
handle_response ops prev_failures item now none =
    if give_up prev_failures then some (ensure_published item now) else none
handle_response ops prev_failures item now (some r) =
    if r.status == status_ok
    then some (decoded (ops.decode r.body r.content_type))
    else if give_up prev_failures
    then some (ensure_published item now)
    else none
  where
    decoded : Option String → Item
    decoded none = ensure_published item now
    decoded (some body) = apply_article ops item body now

unfoldable pub process_item : ArticleOps → Bool → ℕ → Item → ℕ → Option Item
unfolding handle_response
process_item ops fulltext prev_failures item now =
    if not fulltext
    then some (ensure_published item now)
    else if not (ops.allowed item.link)
    then some (ensure_published item now)
    else handle_response ops prev_failures item now (ops.fetch item.link)

pub record Processed : Type 0 where
  pub imported : List String
  pub fetch_failed : List String
  pub final_items : List Item

abbrev pub note : String → Option Item → Processed → Processed
note url none p = record p { fetch_failed = url ∷ p.fetch_failed }
note url (some item) p = record p {
  imported = url ∷ p.imported;
  final_items = item ∷ p.final_items;
}

-- The loop over `toProcess`.
unfoldable pub process : ArticleOps → Bool → Dict String ℕ → ℕ → List Item → Processed
unfolding process_item
process ops fulltext prev_pending now [] = record {
  imported = [];
  fetch_failed = [];
  final_items = [];
}
process ops fulltext prev_pending now (item ∷ items) =
    note item.link
      (process_item ops fulltext (count_at (Dict.lookup string_discrete item.link prev_pending))
        item now)
      (process ops fulltext prev_pending now items)

pub record Config : Type 0 where
  pub fulltext : Option Bool
  pub max_items_per_crawl : ℕ
  pub config_hash : String

abbrev pub links : List Item → List String
links = map λ i. i.link

-- The articles that a crawl of these candidates takes on: `toProcess`.
unfoldable pub attempted : Config → List Item → List Item
unfolding max_items_effective
attempted cfg candidates = take (max_items_effective cfg.max_items_per_crawl) candidates

-- `candidates` are the items that `Extract` handed on, so the new ones only: a URL of the page that
-- was seen before is not among them.
unfoldable pub commit_input : Config → Bool → List Item → Processed → CommitInput
commit_input cfg initial candidates done = record {
  candidates = links candidates;
  imported = done.imported;
  fetch_failed = done.fetch_failed;
  initial = initial;
  truncated = leb max_candidates (length candidates);
  config_hash = cfg.config_hash;
}

-- The crawl of a page with at least one new candidate: the loop and `CommitState`.
unfoldable pub crawl_new :
    ArticleOps → Config → State × Bool → Bool → ℕ → List Item → Processed × State
unfolding attempted commit_input fulltext_enabled process commit
crawl_new ops cfg (prev_state, ok) initial now candidates =
    let prev_pending = if ok then prev_state.pending else [] in
    let done =
      process ops (fulltext_enabled cfg.fulltext) prev_pending now (attempted cfg candidates) in
    (done, commit prev_state (commit_input cfg initial candidates done))

-- The items that the crawl hands on and the state that it stores, none for "leave it alone".
unfoldable pub crawl_page :
    (String → Option State)
    → ArticleOps
    → Config
    → String
    → ℕ
    → List Item × Option State
    → List Item × Option State
unfolding crawl_new parse_state
crawl_page unmarshal ops cfg raw now (items, some st) = (items, some st)
crawl_page unmarshal ops cfg raw now ([], none) = ([], none)
crawl_page unmarshal ops cfg raw now (item ∷ items, none) =
    let (done, st) =
      crawl_new ops cfg (parse_state unmarshal raw) (ite (string_discrete raw "") true false) now
        (item ∷ items) in
    (done.final_items, some st)
