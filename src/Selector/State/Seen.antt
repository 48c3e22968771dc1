-- ===== src/Selector/State/Seen.antt =====
-- The list of seen URLs after a crawl: no duplicates, no candidate of the crawl evicted, and the
-- cap. The candidates are the new URLs of the listing page: those that were seen before are not
-- among them, also while the page shows them.
use feedla.Prelude.{
  ℕ, ◌+◌, ◌-◌, ◌≤◌, ◌≡◌, refl, ◌⊎◌, inl, inr, String, string_discrete, true, false, not, ◌&&◌, ◌||◌,
  List, [], ◌∷◌, ◌++◌, ltb, ite, length, contains-append, count, count-append, count-contains,
  contains-count, All, arith, Bool-cases,
}
use feedla.Selector.State.{
  State, CommitInput, is_in, add_all, add_unfailed, seen_order, evict, cap_seen, commit, max_seen,
}

is_in-snoc :
    (order : List String) (u x : String)
    → is_in (order ++ u ∷ []) x ≡ (is_in order x || ite (string_discrete u x) true false)
is_in-snoc order u x = contains-append string_discrete order (u ∷ []) x

-- What `add` leaves in the set: what was there and what was added.
add_all_in :
    (urls order : List String) (x : String)
    → is_in (add_all order urls) x ≡ (is_in order x || is_in urls x)
unfolding add_all
add_all_in [] order x = ground arith
add_all_in (u ∷ urls) order x =
    ground
      (arith, is_in-snoc order u x, add_all_in urls order x, add_all_in urls (order ++ u ∷ []) x)

add_unfailed_in :
    (failed urls order : List String) (x : String)
    → is_in (add_unfailed failed order urls) x
      ≡ (is_in order x || (is_in urls x && not (is_in failed x)))
unfolding add_unfailed
add_unfailed_in failed [] order x = ground arith
add_unfailed_in failed (u ∷ urls) order x = ground (
  arith,
  is_in-snoc order u x,
  add_unfailed_in failed urls order x,
  add_unfailed_in failed urls (order ++ u ∷ []) x,
)

seen_order_in :
    (st : State) (input : CommitInput) (x : String)
    → is_in (seen_order st input) x ≡ (
        is_in st.seen x
        || is_in input.imported x
        || (input.initial && is_in input.candidates x && not (is_in input.fetch_failed x)))
unfolding seen_order
seen_order_in st input x =
    let before = add_all [] st.seen in
    let order = add_all before input.imported in
    ground (
      arith,
      add_all_in st.seen [] x,
      add_all_in input.imported before x,
      add_unfailed_in input.fetch_failed input.candidates order x,
    )

-- An element that is absent has count 0.
count_absent : (x : String) (xs : List String) → is_in xs x ≡ false → count string_discrete x xs ≡ 0
count_absent x xs h = ground (arith, count-contains string_discrete x xs)

count-snoc :
    (x u : String) (xs : List String)
    → count string_discrete x (xs ++ u ∷ [])
      ≡ count string_discrete x xs + ite (string_discrete u x) 1 0
count-snoc x u xs = ground (arith, count-append string_discrete x xs (u ∷ []))

add_all_count :
    (urls order : List String) (x : String)
    → count string_discrete x order ≤ 1
    → count string_discrete x (add_all order urls) ≤ 1
unfolding add_all
add_all_count [] order x h = h
add_all_count (u ∷ urls) order x h = ground (
  arith,
  count-snoc x u order,
  count_absent x order,
  add_all_count urls order x,
  add_all_count urls (order ++ u ∷ []) x,
)

add_unfailed_count :
    (failed urls order : List String) (x : String)
    → count string_discrete x order ≤ 1
    → count string_discrete x (add_unfailed failed order urls) ≤ 1
unfolding add_unfailed
add_unfailed_count failed [] order x h = h
add_unfailed_count failed (u ∷ urls) order x h = ground (
  arith,
  count-snoc x u order,
  count_absent x order,
  add_unfailed_count failed urls order x,
  add_unfailed_count failed urls (order ++ u ∷ []) x,
)

evict_count :
    (t r : ℕ) (cands order : List String) (x : String)
    → count string_discrete x (evict t r cands order) ≤ count string_discrete x order
unfolding evict
evict_count t r cands [] x = omega arith
evict_count t r cands (u ∷ order) x =
    ground (arith, evict_count t (r + 1) cands order x, evict_count t r cands order x)

-- A candidate is never evicted.
evict_candidate :
    (t r : ℕ) (cands order : List String) (x : String)
    → is_in cands x ≡ true
    → is_in (evict t r cands order) x ≡ is_in order x
unfolding evict
evict_candidate t r cands [] x h = refl
evict_candidate t r cands (u ∷ order) x h =
    ground (arith, evict_candidate t (r + 1) cands order x h, evict_candidate t r cands order x h)

length-evict : (t r : ℕ) (cands order : List String) → length (evict t r cands order) ≤ length order
unfolding evict
length-evict t r cands [] = omega arith
length-evict t r cands (u ∷ order) =
    ground (arith, length-evict t (r + 1) cands order, length-evict t r cands order)

evict_enough :
    (t r : ℕ) (cands order : List String)
    → (length (evict t r cands order) + t ≤ length order + r)
      ⊎ All (λ u. is_in cands u ≡ true) (evict t r cands order)
unfolding evict
evict_enough t r cands [] = inr tt
evict_enough t r cands (u ∷ order) = ground (
  arith,
  evict_enough t (r + 1) cands order,
  evict_enough t r cands order,
  length-evict t r cands order,
)

cap_seen_count :
    (cands order : List String) (x : String)
    → count string_discrete x (cap_seen cands order) ≤ count string_discrete x order
unfolding cap_seen
cap_seen_count cands order x = ground (arith, evict_count (length order - max_seen) 0 cands order x)

cap_seen_candidate :
    (cands order : List String) (x : String)
    → is_in cands x ≡ true
    → is_in (cap_seen cands order) x ≡ is_in order x
unfolding cap_seen
cap_seen_candidate cands order x h =
    ground (arith, evict_candidate (length order - max_seen) 0 cands order x h)

-- The state after a crawl lists no URL twice.
pub seen_once :
    (st : State) (input : CommitInput) (x : String)
    → count string_discrete x (commit st input).seen ≤ 1
unfolding commit seen_order
seen_once st input x =
    let before = add_all [] st.seen in
    let order = add_all before input.imported in
    let twice = add_all_count st.seen [] x (omega arith) in
    let thrice = add_all_count input.imported before x twice in
    ground (
      arith,
      cap_seen_count input.candidates (seen_order st input) x,
      thrice,
      add_unfailed_count input.fetch_failed input.candidates order x,
    )

-- A candidate is seen after the crawl exactly if it was seen before, was imported, or did not fail
-- on the initial crawl: the cap evicts none of these.
pub seen_candidate :
    (st : State) (input : CommitInput) (x : String)
    → is_in input.candidates x ≡ true
    → is_in (commit st input).seen x ≡ (
        is_in st.seen x
        || is_in input.imported x
        || (input.initial && not (is_in input.fetch_failed x)))
unfolding commit
seen_candidate st input x h =
    ground (
      arith,
      cap_seen_candidate input.candidates (seen_order st input) x h,
      seen_order_in st input x,
    )

-- No other URL becomes seen.
pub seen_other :
    (st : State) (input : CommitInput) (x : String)
    → is_in input.candidates x ≡ false
    → is_in (commit st input).seen x ≡ true
    → (is_in st.seen x || is_in input.imported x) ≡ true
unfolding commit
seen_other st input x h s = ground (
  arith,
  cap_seen_count input.candidates (seen_order st input) x,
  contains-count string_discrete x (cap_seen input.candidates (seen_order st input)) s,
  count_absent x (seen_order st input),
  seen_order_in st input x,
)

-- The list keeps to its cap, but for the candidates of this crawl: past the cap there is no other
-- in it.
pub seen_capped :
    (st : State) (input : CommitInput)
    → (length (commit st input).seen ≤ max_seen)
      ⊎ All (λ u. is_in input.candidates u ≡ true) (commit st input).seen
unfolding commit cap_seen
seen_capped st input =
    let order = seen_order st input in
    elim (Bool-cases (ltb max_seen (length order))) [
      | inl over ↦
          rw over (enough order (evict_enough (length order - max_seen) 0 input.candidates order))
      | inr under ↦ rw under (inl (ground arith))
    ]
  where
    enough :
        (order : List String)
        → (length (evict (length order - max_seen) 0 input.candidates order)
              + (length order - max_seen)
            ≤ length order + 0)
          ⊎ All
              (λ u. is_in input.candidates u ≡ true)
              (evict (length order - max_seen) 0 input.candidates order)
        → (length (evict (length order - max_seen) 0 input.candidates order) ≤ max_seen)
          ⊎ All
              (λ u. is_in input.candidates u ≡ true)
              (evict (length order - max_seen) 0 input.candidates order)
    enough order (inl h) = inl (omega arith)
    enough order (inr a) = inr a
