-- ===== src/Feed/Opml.antt =====
-- internal/feed/opml.go and export.go: subscriptions as an OPML document and back. The XML codec is
-- the standard library's: a document is the tree of its outlines with the two texts of its head.
pub mod RoundTrip
use feedla.Prelude.{
  ℕ, String, string_discrete, Bool, true, false, not, ◌&&◌, Option, none, some, List, [], ◌∷◌, ◌++◌,
  ◌==◌, if◌then◌else◌, ltb, map,
}
use feedla.Store.Accounts.{same_text}

mutual
  pub data Outline : Type 0 where
    -- text, title, type, xmlUrl, htmlUrl and the outlines inside
    outline : String → String → String → String → String → Outlines → Outline

  pub data Outlines : Type 0 where
    nil : Outlines
    item : Outline → Outlines → Outlines

pub record OpmlDocument : Type 0 where
  pub version : String
  pub title : String
  pub body : Outlines

pub record ImportedFeed : Type 0 where
  pub title : String
  pub feed_url : String
  pub site_url : String
  pub folder_name : String

abbrev pub name_of : String → String → String
name_of title text = if same_text title "" then text else title

-- `collectOutlines`, with what it appends.
unfoldable mutual
  unfolding string_discrete

  pub collect_outline : String → Outline → List ImportedFeed
  collect_outline folder (outline label title kind xml_url html_url inner) =
      let name = name_of title label in
      let children = collect_outlines name inner in
      if same_text xml_url ""
      then children
      else (record { title = name; feed_url = xml_url; site_url = html_url; folder_name = folder })
        ∷ []

  pub collect_outlines : String → Outlines → List ImportedFeed
  collect_outlines folder nil = []
  collect_outlines folder (item o os) = collect_outline folder o ++ collect_outlines folder os

-- `xml.NewDecoder(r).Decode`, none for an error.
unfoldable pub parse_opml : (List ℕ → Option OpmlDocument) → List ℕ → Option (List ImportedFeed)
unfolding collect_outlines
parse_opml decode raw = elim (decode raw) [
  | none ↦ none
  | some doc ↦ some (collect_outlines "" doc.body)
]

-- The columns of `ListSubscriptionViews` that the export reads.
pub record SubscriptionView : Type 0 where
  pub kind : String
  pub title : String
  pub feed_url : String
  pub site_url : String
  pub folder_id : Option ℕ

pub record Folder : Type 0 where
  pub id : ℕ
  pub name : String

unfoldable pub outline_of : SubscriptionView → Outline
outline_of s = outline s.title s.title "rss" s.feed_url s.site_url nil

abbrev pub is_feed : SubscriptionView → Bool
is_feed s = same_text s.kind "feed"

abbrev pub in_folder : ℕ → Option ℕ → Bool
in_folder id none = false
in_folder id (some i) = i == id

abbrev pub unfiled : Option ℕ → Bool
unfiled none = true
unfiled (some i) = false

-- `byFolder[id]`, in the order of the subscriptions.
unfoldable pub by_folder : ℕ → List SubscriptionView → Outlines
unfolding outline_of string_discrete
by_folder id [] = nil
by_folder id (s ∷ subs) =
    let rest = by_folder id subs in
    if is_feed s && in_folder id s.folder_id then item (outline_of s) rest else rest

unfoldable pub unfoldered : List SubscriptionView → Outlines
unfolding outline_of string_discrete
unfoldered [] = nil
unfoldered (s ∷ subs) =
    let rest = unfoldered subs in
    if is_feed s && unfiled s.folder_id then item (outline_of s) rest else rest

abbrev pub add_folder : Folder → Outlines → Outlines → Outlines
add_folder f nil rest = rest
add_folder f (item o os) rest = item (outline f.name f.name "" "" "" (item o os)) rest

unfoldable pub export_body : List Folder → List SubscriptionView → Outlines
unfolding by_folder unfoldered
export_body [] subs = unfoldered subs
export_body (f ∷ folders) subs = add_folder f (by_folder f.id subs) (export_body folders subs)

abbrev pub with_declaration : List ℕ → Option (List ℕ) → Option (List ℕ)
with_declaration declaration none = none
with_declaration declaration (some bytes) = some (declaration ++ bytes)

-- `xml.MarshalIndent`, none for an error; the bytes of `xmlDeclaration` come first.
unfoldable pub export_opml :
    (OpmlDocument → Option (List ℕ))
    → List ℕ
    → List Folder
    → List SubscriptionView
    → Option (List ℕ)
unfolding export_body
export_opml encode declaration folders subs = with_declaration declaration (
    encode
      (record { version = "2.0"; title = "feedla subscriptions"; body = export_body folders subs }))
