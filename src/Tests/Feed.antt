-- ===== src/Tests/Feed.antt =====
-- Two subscriptions, one in a folder, and a watched page.
use feedla.Prelude.{
  ℕ, ◌≡◌, String, string_discrete, ap, Option, none, some, List, [], ◌∷◌, ◌++◌, ite, arith,
}
use feedla.Feed.Opml.{
  outline, Outlines, nil, item, OpmlDocument, parse_opml, SubscriptionView, Folder, export_opml,
  with_declaration,
}
use feedla.Feed.Opml.RoundTrip.{listing, parse_opml-export_opml}

abbrev subscription : String → String → Option ℕ → SubscriptionView
subscription kind url folder = record {
  kind = kind;
  title = "News";
  feed_url = url;
  site_url = "https://example.org/";
  folder_id = folder;
}

abbrev subscriptions : List SubscriptionView
subscriptions =
    subscription "feed" "https://example.org/a" none
    ∷ subscription "pagewatch" "pagewatch:1" none
    ∷ subscription "feed" "https://example.org/b" (some 7)
    ∷ []

abbrev folders : List Folder
folders = (record { id = 7; name = "Daily" }) ∷ []

abbrev body : Outlines
body =
    item
      (outline "Daily" "Daily" "" "" ""
        (item (outline "News" "News" "rss" "https://example.org/b" "https://example.org/" nil) nil))
      (item (outline "News" "News" "rss" "https://example.org/a" "https://example.org/" nil) nil)

abbrev document : OpmlDocument
document = record { version = "2.0"; title = "feedla subscriptions"; body = body }

document_discrete : Discrete OpmlDocument
document_discrete = hlevel (string_discrete)

-- A codec for that document alone.
abbrev encode : OpmlDocument → Option (List ℕ)
encode doc = ite (document_discrete doc document) (some (1 ∷ [])) none

abbrev decode : List ℕ → Option OpmlDocument
decode raw = some document

codec :
    (doc : OpmlDocument) (bytes : List ℕ)
    → encode doc ≡ some bytes
    → decode ((60 ∷ []) ++ bytes) ≡ some doc
codec doc bytes e = ground (arith, e)

encoded : encode document ≡ some (1 ∷ [])
encoded = ground arith

exported : export_opml encode (60 ∷ []) folders subscriptions ≡ some (60 ∷ 1 ∷ [])
unfolding export_opml
exported = ap (with_declaration (60 ∷ [])) encoded

parse_opml-export_opml_example :
    parse_opml decode (60 ∷ 1 ∷ [])
    ≡ some (
        (record {
          title = "News";
          feed_url = "https://example.org/b";
          site_url = "https://example.org/";
          folder_name = "Daily";
        })
        ∷ (record {
          title = "News";
          feed_url = "https://example.org/a";
          site_url = "https://example.org/";
          folder_name = "";
        })
        ∷ [])
unfolding listing string_discrete
parse_opml-export_opml_example =
    parse_opml-export_opml encode decode (60 ∷ []) codec folders subscriptions (60 ∷ 1 ∷ [])
      (λ e. cc e, (λ e. cc e, (λ e. cc e, tt))) exported
