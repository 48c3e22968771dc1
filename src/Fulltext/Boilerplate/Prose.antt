-- ===== src/Fulltext/Boilerplate/Prose.antt =====
-- What `Apply` takes away: link-dominated subtrees only, and none before the second page.
use feedla.Prelude.{
  ℕ, suc, ◌+◌, ◌*◌, ◌≤◌, ◌≡◌, String, Bool, true, Option, none, some, List, if◌then◌else◌, arith,
  inl, inr, Bool-cases,
}
use feedla.Fulltext.Boilerplate.{State}
use feedla.Fulltext.Boilerplate.Page.{
  Node, text_node, element, other, Nodes, nil, child, Swept, compute_digest, compute_digests,
  doomed, is_chrome_shaped, visit, walk, apply, attach, reported, untouched,
}
use Prim.Native.Char.{Char}
use package.text.Mathlib.Text.{◌==◌ as ◌is◌}

module _ (is_space : Char → Bool) (nfkc hash : String → String) where
  abbrev text_in : Nodes → ℕ
  text_in ns = (compute_digests is_space nfkc hash ns).text_len

  abbrev links_in : Nodes → ℕ
  links_in ns = (compute_digests is_space nfkc hash ns).link_text_len

  -- From one list of nodes to another that lacks only as much text as twice the links it lacks.
  record IsTrimmed (ns ns' : Nodes) : Type 0 where
    less_text : text_in ns' ≤ text_in ns
    by_links : text_in ns + links_in ns' * 2 ≤ text_in ns' + links_in ns * 2

  same_IsTrimmed : (ns : Nodes) → IsTrimmed ns ns
  same_IsTrimmed ns = record { less_text = omega arith; by_links = omega arith }

  element-IsTrimmed :
      (tag : String) (attrs : List (String × String)) (ns ns' : Nodes)
      → IsTrimmed ns ns'
      → IsTrimmed (child (element tag attrs ns) nil) (child (element tag attrs ns') nil)
  unfolding compute_digest
  element-IsTrimmed tag attrs ns ns' h = elim (Bool-cases (tag is "a")) [
    | inl e ↦ record {
      less_text = omega (arith, h.less_text);
      by_links = rw (compute_digests, e, if◌then◌else◌) (omega (arith, h.less_text, h.by_links));
    }
    | inr e ↦ record {
      less_text = omega (arith, h.less_text);
      by_links = rw (compute_digests, e, if◌then◌else◌) (omega (arith, h.less_text, h.by_links));
    }
  ]

  gone-IsTrimmed :
      (c : Node)
      → is_chrome_shaped (compute_digest is_space nfkc hash c) ≡ true
      → IsTrimmed (child c nil) nil
  unfolding compute_digest is_chrome_shaped
  gone-IsTrimmed c e = record { less_text = omega arith; by_links = ground (arith, e) }

  attach-IsTrimmed :
      (c : Node) (o : Option Node) (ns ns' : Nodes)
      → IsTrimmed (child c nil) (attach o nil)
      → IsTrimmed ns ns'
      → IsTrimmed (child c ns) (attach o ns')
  unfolding compute_digest
  attach-IsTrimmed c none ns ns' h g = record {
    less_text = omega (arith, h.less_text, g.less_text);
    by_links = omega (arith, h.by_links, g.by_links);
  }
  attach-IsTrimmed c (some n) ns ns' h g = record {
    less_text = omega (arith, h.less_text, g.less_text);
    by_links = omega (arith, h.by_links, g.by_links);
  }

  doomed_chrome :
      (s : State) (c : Node) (tag : String) (depth : ℕ)
      → doomed is_space nfkc hash s c tag depth ≡ true
      → is_chrome_shaped (compute_digest is_space nfkc hash c) ≡ true
  unfolding doomed
  doomed_chrome s c tag depth e = ground (arith, e)

  mutual
    unfolding visit

    visit-IsTrimmed :
        (s : State) (depth : ℕ) (c : Node) (w : Swept)
        → IsTrimmed (child c nil) (attach (visit is_space nfkc hash s depth c w).0 nil)
    visit-IsTrimmed s depth (text_node t) w = same_IsTrimmed (child (text_node t) nil)
    visit-IsTrimmed s depth (other ns) w = same_IsTrimmed (child (other ns) nil)
    visit-IsTrimmed s depth (element tag attrs ns) w =
        let c = element tag attrs ns in
        let w' = reported is_space nfkc hash c tag depth w in
        let inner = walk-IsTrimmed s (suc depth) ns w' in
        elim (Bool-cases (tag is "head")) [
          | inl e ↦ rw (e, if◌then◌else◌) (same_IsTrimmed (child c nil))
          | inr e ↦ elim (Bool-cases (doomed is_space nfkc hash s c tag depth)) [
            | inl d ↦ rw (e, d, if◌then◌else◌) (gone-IsTrimmed c (doomed_chrome s c tag depth d))
            | inr d ↦
                rw (e, d, if◌then◌else◌)
                  (element-IsTrimmed tag attrs ns (walk is_space nfkc hash s (suc depth) ns w').0
                    inner)
          ]
        ]

    walk-IsTrimmed :
        (s : State) (depth : ℕ) (ns : Nodes) (w : Swept)
        → IsTrimmed ns (walk is_space nfkc hash s depth ns w).0
    walk-IsTrimmed s depth nil w = same_IsTrimmed nil
    walk-IsTrimmed s depth (child c ns) w =
        attach-IsTrimmed c (visit is_space nfkc hash s depth c w).0 ns
          (walk is_space nfkc hash s depth ns (visit is_space nfkc hash s depth c w).1).0
          (visit-IsTrimmed s depth c w)
          (walk-IsTrimmed s depth ns (visit is_space nfkc hash s depth c w).1)

  -- What `Apply` cuts off a page is at most twice the link text that goes with it, in runes of
  -- normalized text: at least half of the removed text is in links.
  pub apply_prose :
      (doc : Node) (s : State)
      → let before = compute_digest is_space nfkc hash doc in
        let after = compute_digest is_space nfkc hash (apply is_space nfkc hash doc s).0 in
        (after.text_len ≤ before.text_len)
        × (before.text_len + after.link_text_len * 2 ≤ after.text_len + before.link_text_len * 2)
  unfolding apply compute_digest
  apply_prose (text_node t) s = (omega arith, omega arith)
  apply_prose (other ns) s = let h = walk-IsTrimmed s 0 ns untouched in (h.less_text, h.by_links)
  apply_prose (element tag attrs ns) s =
      let h = element-IsTrimmed tag attrs ns _ (walk-IsTrimmed s 0 ns untouched) in
      (omega (arith, h.less_text), omega (arith, h.by_links))
