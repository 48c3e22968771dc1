-- ===== src/Feed/Opml/RoundTrip.antt =====
-- What is exported is read back.
use feedla.Prelude.{
  ℕ, ◌≡◌, ◌≢◌, refl, sym, ap, ◌∙◌, String, string_discrete, true, false, ◌&&◌, Option, none, some,
  List, [], ◌∷◌, ◌++◌, if◌then◌else◌, inl, inr, Bool-cases, All, map, keep, arith,
}
use feedla.Store.Accounts.{same_text}
use feedla.Feed.Opml.{
  Outlines, nil, item, OpmlDocument, ImportedFeed, name_of, collect_outline, collect_outlines,
  parse_opml, SubscriptionView, Folder, outline_of, is_feed, in_folder, unfiled, by_folder,
  unfoldered, add_folder, export_body, export_opml, with_declaration,
}

-- A subscription under a folder, as the import sees it.
unfoldable pub imported : String → SubscriptionView → ImportedFeed
imported folder s = record {
  title = s.title;
  feed_url = s.feed_url;
  site_url = s.site_url;
  folder_name = folder;
}

-- The feeds of each folder in turn, under its name, and then those without a folder.
unfoldable pub listing : List Folder → List SubscriptionView → List ImportedFeed
unfolding imported
listing [] subs = map (imported "") (keep (λ s. is_feed s && unfiled s.folder_id) subs)
listing (f ∷ folders) subs =
    map (imported f.name) (keep (λ s. is_feed s && in_folder f.id s.folder_id) subs)
    ++ listing folders subs

named : (a : String) → name_of a a ≡ a
named a = ground arith

has_url : (s : SubscriptionView) → s.feed_url ≢ "" → same_text s.feed_url "" ≡ false
has_url s h = ground (arith, h)

collect-outline_of :
    (folder : String) (s : SubscriptionView)
    → s.feed_url ≢ ""
    → collect_outline folder (outline_of s) ≡ imported folder s ∷ []
unfolding collect_outline outline_of imported
collect-outline_of folder s h = rw (has_url s h, named s.title, if◌then◌else◌) refl

abbrev pub HasUrls : List SubscriptionView → Type 0
HasUrls subs = All (λ (s : SubscriptionView). s.feed_url ≢ "") subs

collect-by_folder :
    (folder : String) (id : ℕ) (subs : List SubscriptionView)
    → HasUrls subs
    → collect_outlines folder (by_folder id subs)
      ≡ map (imported folder) (keep (λ s. is_feed s && in_folder id s.folder_id) subs)
unfolding collect_outlines by_folder
collect-by_folder folder id [] h = refl
collect-by_folder folder id (s ∷ subs) (u, h) =
    elim (Bool-cases (is_feed s && in_folder id s.folder_id)) [
      | inl e ↦
          rw
            (
              e,
              if◌then◌else◌,
              keep,
              collect-outline_of folder s u,
              collect-by_folder folder id subs h,
            )
            refl
      | inr e ↦ rw (e, if◌then◌else◌, keep) (collect-by_folder folder id subs h)
    ]

collect-unfoldered :
    (folder : String) (subs : List SubscriptionView)
    → HasUrls subs
    → collect_outlines folder (unfoldered subs)
      ≡ map (imported folder) (keep (λ s. is_feed s && unfiled s.folder_id) subs)
unfolding collect_outlines unfoldered
collect-unfoldered folder [] h = refl
collect-unfoldered folder (s ∷ subs) (u, h) = elim (Bool-cases (is_feed s && unfiled s.folder_id)) [
  | inl e ↦
      rw (e, if◌then◌else◌, keep, collect-outline_of folder s u, collect-unfoldered folder subs h)
        refl
  | inr e ↦ rw (e, if◌then◌else◌, keep) (collect-unfoldered folder subs h)
]

no_url : same_text "" "" ≡ true
unfolding string_discrete
no_url = refl

collect-add_folder :
    (f : Folder) (feeds rest : Outlines)
    → collect_outlines "" (add_folder f feeds rest)
      ≡ collect_outlines f.name feeds ++ collect_outlines "" rest
unfolding collect_outlines
collect-add_folder f nil rest = refl
collect-add_folder f (item o os) rest = rw (no_url, named f.name, if◌then◌else◌) refl

collect-export_body :
    (folders : List Folder) (subs : List SubscriptionView)
    → HasUrls subs
    → collect_outlines "" (export_body folders subs) ≡ listing folders subs
unfolding export_body listing
collect-export_body [] subs h = collect-unfoldered "" subs h
collect-export_body (f ∷ folders) subs h =
    collect-add_folder f (by_folder f.id subs) (export_body folders subs)
    ∙ ap (λ l. l ++ collect_outlines "" (export_body folders subs))
        (collect-by_folder f.name f.id subs h)
    ∙ ap
        (λ l. map (imported f.name) (keep (λ s. is_feed s && in_folder f.id s.folder_id) subs) ++ l)
        (collect-export_body folders subs h)

parsed :
    (decode : List ℕ → Option OpmlDocument) (raw : List ℕ) (doc : OpmlDocument)
    → decode raw ≡ some doc
    → parse_opml decode raw ≡ some (collect_outlines "" doc.body)
unfolding parse_opml
parsed decode raw doc e = rw (parse_opml, e) refl

-- What is exported is read back as the feeds of each listed folder under its name and those without
-- a folder, in their order, and nothing of the other kinds of subscription, where the decoder reads
-- what the encoder wrote behind the declaration and each subscription has an address.
pub parse_opml-export_opml :
    (encode : OpmlDocument → Option (List ℕ)) (decode : List ℕ → Option OpmlDocument)
    (declaration : List ℕ)
    → ((doc : OpmlDocument) (bytes : List ℕ)
        → encode doc ≡ some bytes
        → decode (declaration ++ bytes) ≡ some doc)
    → (folders : List Folder) (subs : List SubscriptionView) (raw : List ℕ) → HasUrls subs
    → export_opml encode declaration folders subs ≡ some raw
    → parse_opml decode raw ≡ some (listing folders subs)
unfolding export_opml
parse_opml-export_opml encode decode declaration codec folders subs raw h e = go _ refl e
  where
    doc : OpmlDocument
    doc = record {
      version = "2.0";
      title = "feedla subscriptions";
      body = export_body folders subs;
    }

    same_bytes : {a b : List ℕ} → some a ≡ some b → a ≡ b
    same_bytes q = cc q

    go :
        (o : Option (List ℕ))
        → encode doc ≡ o
        → with_declaration declaration o ≡ some raw
        → parse_opml decode raw ≡ some (listing folders subs)
    go none k q = cc q
    go (some bytes) k q =
        parsed decode raw doc (ap decode (sym (same_bytes q)) ∙ codec doc bytes k)
        ∙ ap some (collect-export_body folders subs h)
