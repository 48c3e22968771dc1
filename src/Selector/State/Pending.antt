-- ===== src/Selector/State/Pending.antt =====
-- The retry counts after a crawl.
use feedla.Prelude.{
  ℕ, ◌+◌, ◌≡◌, refl, String, string_discrete, not, ◌&&◌, none, some, List, [], ◌∷◌, if◌then◌else◌,
  ◌==◌, count, arith,
}
use feedla.Prelude.Dict
use feedla.Prelude.Dict.{Dict}
use feedla.Selector.State.{
  State, CommitInput, is_in, delete_all, count_at, count_failures, new_pending, commit,
}

lookup-delete_all :
    (urls : List String) (m : Dict String ℕ) (x : String)
    → Dict.lookup string_discrete x (delete_all urls m)
      ≡ (if is_in urls x then none else Dict.lookup string_discrete x m)
unfolding delete_all
lookup-delete_all [] m x = refl
lookup-delete_all (u ∷ urls) m x = ground (
  arith,
  lookup-delete_all urls (Dict.delete string_discrete u m) x,
  Dict.lookup-delete string_discrete u x m,
)

lookup-count_failures :
    (urls : List String) (m : Dict String ℕ) (x : String)
    → Dict.lookup string_discrete x (count_failures urls m) ≡ (
        if count string_discrete x urls == 0
        then Dict.lookup string_discrete x m
        else some (count_at (Dict.lookup string_discrete x m) + count string_discrete x urls))
unfolding count_failures
lookup-count_failures [] m x = refl
lookup-count_failures (u ∷ urls) m x =
    let n = count_at (Dict.lookup string_discrete u m) + 1 in
    ground (
      arith,
      lookup-count_failures urls (Dict.insert string_discrete u n m) x,
      Dict.lookup-insert string_discrete u x n m,
    )

-- After a crawl the retry count of a URL is kept only if it is a candidate of the crawl and was not
-- imported, and each failure of this crawl adds one to it.
pub pending_lem :
    (st : State) (input : CommitInput) (x : String)
    → let kept =
        if is_in input.candidates x && not (is_in input.imported x)
        then Dict.lookup string_discrete x st.pending
        else none in
      let failures = count string_discrete x input.fetch_failed in
      Dict.lookup string_discrete x (commit st input).pending
      ≡ (if failures == 0 then kept else some (count_at kept + failures))
unfolding commit new_pending
pending_lem st input x =
    let shown = Dict.retain string_discrete (is_in input.candidates) st.pending in
    ground (
      arith,
      Dict.lookup-retain string_discrete (is_in input.candidates) x st.pending,
      lookup-delete_all input.imported shown x,
      lookup-count_failures input.fetch_failed (delete_all input.imported shown) x,
    )
