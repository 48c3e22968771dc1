-- ===== src/Tests/Pagewatch.antt =====
-- Small pages with moved, added and removed blocks.
use feedla.Prelude.{
  ◌+◌, ◌-◌, ◌≤◌, ◌≡◌, refl, String, string_discrete, List, [], ◌∷◌, count, length, map,
}
use feedla.Pagewatch.Diff.{Block, StateBlock, lcs_diff_idx, compute_diff}
use feedla.Pagewatch.Diff.Lcs.{done, both, skip_prev, skip_curr}
use feedla.Pagewatch.Diff.Lcs.Walk.{lcs_diff_idx_minimal}
use feedla.Pagewatch.Diff.Result.{compute_diff_counts}

abbrev old_keys : List String
old_keys = "a" ∷ "b" ∷ "c" ∷ []

abbrev new_keys : List String
new_keys = "b" ∷ "d" ∷ "a" ∷ []

abbrev old_block : String → StateBlock
old_block key = record { key = key; html = key; anchor = ""; head = "" }

abbrev new_block : String → Block
new_block key = record { html = key; text = key; key = key; anchor = ""; head = "" }

lcs_diff_idx_minimal_example :
    (1 + length (lcs_diff_idx old_keys new_keys).1 ≤ 3)
    × (1 + length (lcs_diff_idx old_keys new_keys).0 ≤ 3)
lcs_diff_idx_minimal_example =
    lcs_diff_idx_minimal old_keys new_keys ("b" ∷ [])
      (skip_prev (both refl (skip_prev (skip_curr (skip_curr done)))))

compute_diff_counts_example :
    (count string_discrete "d" (
        map
          (λ b. b.key)
          (compute_diff (λ s. s) (map old_block old_keys) (map new_block new_keys)).0)
      ≡ count string_discrete "d" (map (λ (b : Block). b.key) (map new_block new_keys))
        - count string_discrete "d" (map (λ (b : StateBlock). b.key) (map old_block old_keys)))
    × (count string_discrete "d" (
          map
            (λ b. b.key)
            (compute_diff (λ s. s) (map old_block old_keys) (map new_block new_keys)).1)
        ≡ count string_discrete "d" (map (λ (b : StateBlock). b.key) (map old_block old_keys))
          - count string_discrete "d" (map (λ (b : Block). b.key) (map new_block new_keys)))
compute_diff_counts_example =
    compute_diff_counts (λ s. s) (map old_block old_keys) (map new_block new_keys) "d"
