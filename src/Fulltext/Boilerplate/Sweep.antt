-- ===== src/Fulltext/Boilerplate/Sweep.antt =====
-- What `Apply` reports and what it leaves alone.
use feedla.Prelude.{
  ℕ, suc, ◌≤◌, ◌≡◌, refl, String, string_discrete, Bool, false, some, List, [], ◌∷◌, if◌then◌else◌,
  arith, inl, inr, Bool-cases, ◌∙◌, ap, contains, count-append, count-contains,
}
use feedla.Fulltext.Boilerplate.{State, is_boilerplate, observe, empty_state}
use feedla.Fulltext.Boilerplate.Evicted.{occurs}
use feedla.Fulltext.Boilerplate.Learning.{IsSound, observe-IsSound, empty_state-IsSound}
use feedla.Fulltext.Boilerplate.Page.{
  Node, text_node, element, other, Nodes, nil, child, Swept, compute_digest, doomed, candidate,
  visit, walk, apply, reported, recorded, untouched,
}
use Prim.Native.Char.{Char}
use package.text.Mathlib.Text.{◌==◌ as ◌is◌}

abbrev IsDistinct : Swept → Type 0
IsDistinct w = (j : String) → occurs j w.sigs ≤ 1

recorded-IsDistinct : (sig : String) (w : Swept) → IsDistinct w → IsDistinct (recorded sig w)
unfolding recorded
recorded-IsDistinct sig w d j = elim (Bool-cases (contains string_discrete w.sigs sig)) [
  | inl e ↦ rw (e, if◌then◌else◌) (d j)
  | inr e ↦
      rw (e, if◌then◌else◌)
        (ground (
          arith,
          e,
          d j,
          count-append string_discrete j w.sigs (sig ∷ []),
          count-contains string_discrete sig w.sigs,
        ))
]

module _ (is_space : Char → Bool) (nfkc hash : String → String) where
  reported-IsDistinct :
      (c : Node) (tag : String) (depth : ℕ) (w : Swept)
      → IsDistinct w
      → IsDistinct (reported is_space nfkc hash c tag depth w)
  reported-IsDistinct c tag depth w d =
      elim (Bool-cases (candidate is_space nfkc hash c tag depth)) [
        | inl e ↦
            rw (e, if◌then◌else◌)
              (recorded-IsDistinct (compute_digest is_space nfkc hash c).sig w d)
        | inr e ↦ rw (e, if◌then◌else◌) d
      ]

  mutual
    unfolding visit

    visit-IsDistinct :
        (s : State) (depth : ℕ) (c : Node) (w : Swept)
        → IsDistinct w
        → IsDistinct (visit is_space nfkc hash s depth c w).1
    visit-IsDistinct s depth (text_node t) w d = d
    visit-IsDistinct s depth (other ns) w d = d
    visit-IsDistinct s depth (element tag attrs ns) w d =
        let c = element tag attrs ns in
        let d' = reported-IsDistinct c tag depth w d in
        let inner =
          walk-IsDistinct s (suc depth) ns (reported is_space nfkc hash c tag depth w) d' in
        elim (Bool-cases (tag is "head")) [
          | inl e ↦ rw (e, if◌then◌else◌) d
          | inr e ↦ elim (Bool-cases (doomed is_space nfkc hash s c tag depth)) [
            | inl k ↦ rw (e, k, if◌then◌else◌) d'
            | inr k ↦ rw (e, k, if◌then◌else◌) inner
          ]
        ]

    walk-IsDistinct :
        (s : State) (depth : ℕ) (ns : Nodes) (w : Swept)
        → IsDistinct w
        → IsDistinct (walk is_space nfkc hash s depth ns w).1
    walk-IsDistinct s depth nil w d = d
    walk-IsDistinct s depth (child c ns) w d =
        walk-IsDistinct s depth ns (visit is_space nfkc hash s depth c w).1
          (visit-IsDistinct s depth c w d)

  apply-IsDistinct : (doc : Node) (s : State) → IsDistinct (apply is_space nfkc hash doc s).1
  unfolding apply
  apply-IsDistinct (text_node t) s = λ j. omega arith
  apply-IsDistinct (other ns) s = walk-IsDistinct s 0 ns untouched (λ j. omega arith)
  apply-IsDistinct (element tag attrs ns) s = walk-IsDistinct s 0 ns untouched (λ j. omega arith)

  not_doomed :
      (s : State) (c : Node) (tag : String) (depth : ℕ)
      → ((sig : String) → is_boilerplate s sig ≡ false)
      → doomed is_space nfkc hash s c tag depth ≡ false
  unfolding doomed
  not_doomed s c tag depth h = ground (arith, h (compute_digest is_space nfkc hash c).sig)

  reported_removed :
      (c : Node) (tag : String) (depth : ℕ) (w : Swept)
      → (reported is_space nfkc hash c tag depth w).removed ≡ w.removed
  unfolding recorded
  reported_removed c tag depth w = ground arith

  mutual
    unfolding visit

    visit_nothing :
        (s : State) (depth : ℕ) (c : Node) (w : Swept)
        → ((sig : String) → is_boilerplate s sig ≡ false)
        → (((visit is_space nfkc hash s depth c w).0 ≡ some c)
            × ((visit is_space nfkc hash s depth c w).1.removed ≡ w.removed))
    visit_nothing s depth (text_node t) w h = (refl, refl)
    visit_nothing s depth (other ns) w h = (refl, refl)
    visit_nothing s depth (element tag attrs ns) w h =
        let c = element tag attrs ns in
        let inner = walk_nothing s (suc depth) ns (reported is_space nfkc hash c tag depth w) h in
        elim (Bool-cases (tag is "head")) [
          | inl e ↦ rw (e, if◌then◌else◌) (refl, refl)
          | inr e ↦
              rw (e, not_doomed s c tag depth h, if◌then◌else◌)
                (
                  ap (λ (m : Nodes). some (element tag attrs m)) inner.0,
                  inner.1 ∙ reported_removed c tag depth w,
                )
        ]

    walk_nothing :
        (s : State) (depth : ℕ) (ns : Nodes) (w : Swept)
        → ((sig : String) → is_boilerplate s sig ≡ false)
        → (((walk is_space nfkc hash s depth ns w).0 ≡ ns)
            × ((walk is_space nfkc hash s depth ns w).1.removed ≡ w.removed))
    walk_nothing s depth nil w h = (refl, refl)
    walk_nothing s depth (child c ns) w h =
        let first = visit_nothing s depth c w h in
        let rest = walk_nothing s depth ns (visit is_space nfkc hash s depth c w).1 h in
        (rw (first.0, rest.0) refl, rest.1 ∙ first.1)

  apply_nothing :
      (doc : Node) (s : State)
      → ((sig : String) → is_boilerplate s sig ≡ false)
      → (((apply is_space nfkc hash doc s).0 ≡ doc)
          × ((apply is_space nfkc hash doc s).1.removed ≡ 0))
  unfolding apply
  apply_nothing (text_node t) s h = (refl, refl)
  apply_nothing (other ns) s h = let w = walk_nothing s 0 ns untouched h in (ap other w.0, w.1)
  apply_nothing (element tag attrs ns) s h =
      let w = walk_nothing s 0 ns untouched h in (ap (element tag attrs) w.0, w.1)

  early_unknown :
      (s : State) (sig : String) → IsSound s → s.pages ≤ 1 → is_boilerplate s sig ≡ false
  unfolding is_boilerplate
  early_unknown s sig h p = ground (arith, h.counted sig, p)

  -- A sound state that has seen no more than one page leaves a page as it is.
  pub first_pages_untouched :
      (doc : Node) (s : State)
      → IsSound s
      → s.pages ≤ 1
      → (((apply is_space nfkc hash doc s).0 ≡ doc)
          × ((apply is_space nfkc hash doc s).1.removed ≡ 0))
  first_pages_untouched doc s h p = apply_nothing doc s (λ sig. early_unknown s sig h p)

  -- `Apply` and `Observe` on one page after the other.
  unfoldable pub learn_all : List Node → State → State
  unfolding apply observe
  learn_all [] s = s
  learn_all (doc ∷ docs) s = learn_all docs (observe (apply is_space nfkc hash doc s).1.sigs s)

  learn_all-IsSound_from : (docs : List Node) (s : State) → IsSound s → IsSound (learn_all docs s)
  unfolding learn_all
  learn_all-IsSound_from [] s h = h
  learn_all-IsSound_from (doc ∷ docs) s h =
      learn_all-IsSound_from docs (observe (apply is_space nfkc hash doc s).1.sigs s)
        (observe-IsSound (apply is_space nfkc hash doc s).1.sigs s (apply-IsDistinct doc s) h)

  -- After any pages, from nothing: fewer than 64 pages are counted, at most 2000 signatures are
  -- kept, each once, and each count is at least one and at most the number of pages.
  pub learn_all-IsSound : (docs : List Node) → IsSound (learn_all docs empty_state)
  learn_all-IsSound docs = learn_all-IsSound_from docs empty_state empty_state-IsSound
