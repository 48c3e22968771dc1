-- ===== src/Pagewatch/Diff/Cancel.antt =====
-- The cancellation of keys that occur among the added and among the removed.
use feedla.Prelude.{ℕ, ◌-◌, ◌≡◌, String, string_discrete, List, [], ◌∷◌, get_or, count, arith}
use feedla.Pagewatch.Diff.{keys_at, bump, cancel, filter_idx, cancel_common_keys}

-- `filter` drops the first `cancel[k]` indices of each key, less those that it dropped before.
filter_idx_counts :
    (cancelled used : String → ℕ) (keys : List String) (k : String) (idx : List ℕ)
    → count string_discrete k (keys_at keys (filter_idx cancelled used keys idx))
      ≡ count string_discrete k (keys_at keys idx) - (cancelled k - used k)
unfolding filter_idx
filter_idx_counts cancelled used keys k [] = omega arith
filter_idx_counts cancelled used keys k (i ∷ idx) =
    let j = get_or keys i "" in
    ground (
      arith,
      filter_idx_counts cancelled (bump used j) keys k idx,
      filter_idx_counts cancelled used keys k idx,
    )

-- For every key, as many are dropped from each side as the other side has.
pub cancel_common_keys_counts :
    (added : List ℕ) (curr : List String) (removed : List ℕ) (prev : List String) (k : String)
    → let a = count string_discrete k (keys_at curr added) in
      let r = count string_discrete k (keys_at prev removed) in
      let (added', removed') = cancel_common_keys added curr removed prev in
      (count string_discrete k (keys_at curr added') ≡ a - r)
      × (count string_discrete k (keys_at prev removed') ≡ r - a)
unfolding cancel_common_keys
cancel_common_keys_counts added curr removed prev k =
    let cancelled = λ (j : String).
      cancel (count string_discrete j (keys_at curr added))
        (count string_discrete j (keys_at prev removed)) in
    ground (
      arith,
      filter_idx_counts cancelled (λ _. 0) curr k added,
      filter_idx_counts cancelled (λ _. 0) prev k removed,
    )
