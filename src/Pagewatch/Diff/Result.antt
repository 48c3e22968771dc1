-- ===== src/Pagewatch/Diff/Result.antt =====
-- What `computeDiff` returns, whichever of its two paths it takes.
use feedla.Prelude.{
  ℕ, zero, suc, ◌-◌, ◌≡◌, refl, String, string_discrete, List, [], ◌∷◌, map, get_or, ltb, ◌||◌,
  length, count, arith, Bool-cases, inl, inr,
}
use feedla.Pagewatch.Diff.{
  Block, StateBlock, no_block, no_state_block, keys_at, lcs_block_limit, set_diff_idx, lcs_diff_idx,
  diff_idx, compute_diff, removed_block,
}
use feedla.Pagewatch.Diff.Bag.{set_diff_idx_counts}
use feedla.Pagewatch.Diff.Cancel.{cancel_common_keys_counts}
use feedla.Pagewatch.Diff.Lcs.Walk.{lcs_diff_idx_balance}

-- Both paths, after the cancellation, come to the same counts.
pub diff_idx_counts :
    (prev curr : List String) (k : String)
    → let (added, removed) = diff_idx prev curr in
      (count string_discrete k (keys_at curr added)
        ≡ count string_discrete k curr - count string_discrete k prev)
      × (count string_discrete k (keys_at prev removed)
          ≡ count string_discrete k prev - count string_discrete k curr)
unfolding diff_idx
diff_idx_counts prev curr k =
    elim (Bool-cases (ltb lcs_block_limit (length prev) || ltb lcs_block_limit (length curr))) [
      | inl large ↦
          let (a, r) = set_diff_idx prev curr in
          rw large (
            omega
              (arith, cancel_common_keys_counts a curr r prev k, set_diff_idx_counts prev curr k))
      | inr small ↦
          let (a, r) = lcs_diff_idx prev curr in
          rw small (
            omega
              (arith, cancel_common_keys_counts a curr r prev k, lcs_diff_idx_balance prev curr k))
    ]

get_or-map {ℓ κ} :
    {A : Type ℓ} {B : Type κ} (f : A → B) (xs : List A) (i : ℕ) (d : A)
    → f (get_or xs i d) ≡ get_or (map f xs) i (f d)
get_or-map f [] i d = refl
get_or-map f (x ∷ xs) zero d = refl
get_or-map f (x ∷ xs) (suc i) d = get_or-map f xs i d

keys-at_blocks :
    (curr : List Block) (idx : List ℕ)
    → map (λ b. b.key) (map (λ i. get_or curr i no_block) idx) ≡ keys_at (map (λ b. b.key) curr) idx
keys-at_blocks curr [] = refl
keys-at_blocks curr (i ∷ idx) =
    cc (get_or-map (λ (b : Block). b.key) curr i no_block, keys-at_blocks curr idx)

keys-at_removed :
    (strip_tags : String → String) (prev : List StateBlock) (idx : List ℕ)
    → map (λ b. b.key) (map (λ i. removed_block strip_tags (get_or prev i no_state_block)) idx)
      ≡ keys_at (map (λ b. b.key) prev) idx
unfolding removed_block
keys-at_removed strip_tags prev [] = refl
keys-at_removed strip_tags prev (i ∷ idx) = cc (
  get_or-map (λ (b : StateBlock). b.key) prev i no_state_block,
  keys-at_removed strip_tags prev idx,
)

-- For every key, the blocks reported as added are the surplus of the new page over the old one, and
-- those reported as removed the surplus of the old one: below and above the limit alike.
pub compute_diff_counts :
    (strip_tags : String → String) (prev : List StateBlock) (curr : List Block) (k : String)
    → let (added, removed) = compute_diff strip_tags prev curr in
      let before = count string_discrete k (map (λ b. b.key) prev) in
      let after = count string_discrete k (map (λ b. b.key) curr) in
      (count string_discrete k (map (λ b. b.key) added) ≡ after - before)
      × (count string_discrete k (map (λ b. b.key) removed) ≡ before - after)
unfolding compute_diff
compute_diff_counts strip_tags prev curr k =
    rw (keys-at_blocks curr _, keys-at_removed strip_tags prev _)
      (diff_idx_counts (map (λ b. b.key) prev) (map (λ b. b.key) curr) k)
