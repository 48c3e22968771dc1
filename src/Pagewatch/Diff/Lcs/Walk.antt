-- ===== src/Pagewatch/Diff/Lcs/Walk.antt =====
-- The walk through the table: what it leaves out of either side are the indices that it returns.
use feedla.Prelude.{
  ℕ, suc, ◌+◌, ◌≤◌, ◌≡◌, refl, ap, ap₂, ◌∙◌, length-drop, String, string_discrete, List, [], ◌∷◌,
  drop, length, arith, count,
}
use feedla.Pagewatch.Diff.{keys_at, rest_of, lcs_walk, lcs_table, lcs_diff_idx, cell}
use feedla.Pagewatch.Diff.Positions.{get_or-drop, drop-next, keys_at-rest_of}
use feedla.Pagewatch.Diff.Lcs.{lcs, Common}
use feedla.Pagewatch.Diff.Lcs.Table.{cell-lcs, Common-le-lcs}

-- Whatever the table holds, the walk keeps one sequence of keys common to both sides.
walk_balance :
    (prev curr : List String) (dp : List (List ℕ)) (k : String) (i j : ℕ) (ps cs : List String)
    → drop i prev ≡ ps
    → drop j curr ≡ cs
    → let (added, removed) = lcs_walk dp i j ps cs in
      count string_discrete k (keys_at curr added) + count string_discrete k ps
      ≡ count string_discrete k (keys_at prev removed) + count string_discrete k cs
unfolding lcs_walk
walk_balance prev curr dp k i j [] cs hp hc =
    omega (arith, ap (count string_discrete k) (keys_at-rest_of cs curr j hc))
walk_balance prev curr dp k i j (p ∷ ps) [] hp hc =
    omega (arith, ap (count string_discrete k) (keys_at-rest_of (p ∷ ps) prev i hp))
walk_balance prev curr dp k i j (p ∷ ps) (c ∷ cs) hp hc = ground (
  arith,
  get_or-drop prev i "" hp,
  get_or-drop curr j "" hc,
  walk_balance prev curr dp k (i + 1) (j + 1) ps cs (drop-next prev i hp) (drop-next curr j hc),
  walk_balance prev curr dp k (i + 1) j ps (c ∷ cs) (drop-next prev i hp) hc,
  walk_balance prev curr dp k i (j + 1) (p ∷ ps) cs hp (drop-next curr j hc),
)

-- For every key, the LCS path adds and removes what makes the old count the new one.
pub lcs_diff_idx_balance :
    (prev curr : List String) (k : String)
    → let (added, removed) = lcs_diff_idx prev curr in
      count string_discrete k (keys_at curr added) + count string_discrete k prev
      ≡ count string_discrete k (keys_at prev removed) + count string_discrete k curr
unfolding lcs_diff_idx
lcs_diff_idx_balance prev curr k =
    walk_balance prev curr (lcs_table prev curr) k 0 0 prev curr refl refl

below_length :
    (xs : List String) (i : ℕ) {y : String} {ys : List String}
    → drop i xs ≡ y ∷ ys
    → i + 1 ≤ length xs
below_length xs i h = omega (arith, ap length h, length-drop i xs)

length-rest_of : (i : ℕ) (xs : List String) → length (rest_of i xs) ≡ length xs
unfolding rest_of
length-rest_of i [] = refl
length-rest_of i (x ∷ xs) = ap suc (length-rest_of (i + 1) xs)

-- The two cells that a step of the walk compares.
cell_next :
    (prev curr : List String) (i j : ℕ) (p c : String) (ps cs : List String)
    → drop i prev ≡ p ∷ ps
    → drop j curr ≡ c ∷ cs
    → (cell (lcs_table prev curr) i (j + 1) ≡ lcs (p ∷ ps) cs)
      × (cell (lcs_table prev curr) (i + 1) j ≡ lcs ps (c ∷ cs))
cell_next prev curr i j p c ps cs hp hc =
    let room_p = below_length prev i hp in
    let room_c = below_length curr j hc in
    (
      cell-lcs prev curr i (j + 1) (omega arith) room_c ∙ ap₂ lcs hp (drop-next curr j hc),
      cell-lcs prev curr (i + 1) j room_p (omega arith) ∙ ap₂ lcs (drop-next prev i hp) hc,
    )

-- With the table of the two sequences, the walk keeps as many keys as a longest common one has.
walk_length :
    (prev curr : List String) (i j : ℕ) (ps cs : List String)
    → drop i prev ≡ ps
    → drop j curr ≡ cs
    → let (added, removed) = lcs_walk (lcs_table prev curr) i j ps cs in
      (length removed + lcs ps cs ≡ length ps) × (length added + lcs ps cs ≡ length cs)
unfolding lcs_walk lcs
walk_length prev curr i j [] cs hp hc = omega (arith, length-rest_of j cs)
walk_length prev curr i j (p ∷ ps) [] hp hc = omega (arith, length-rest_of i (p ∷ ps))
walk_length prev curr i j (p ∷ ps) (c ∷ cs) hp hc =
    let hp' = drop-next prev i hp in
    let hc' = drop-next curr j hc in
    ground (
      arith,
      cell_next prev curr i j p c ps cs hp hc,
      walk_length prev curr (i + 1) (j + 1) ps cs hp' hc',
      walk_length prev curr (i + 1) j ps (c ∷ cs) hp' hc,
      walk_length prev curr i (j + 1) (p ∷ ps) cs hp hc',
    )

-- The LCS path is minimal: no common sequence of the two sides leaves out fewer keys of either.
pub lcs_diff_idx_minimal :
    (prev curr zs : List String)
    → Common zs prev curr
    → let (added, removed) = lcs_diff_idx prev curr in
      (length zs + length removed ≤ length prev) × (length zs + length added ≤ length curr)
unfolding lcs_diff_idx
lcs_diff_idx_minimal prev curr zs k =
    omega (arith, walk_length prev curr 0 0 prev curr refl refl, Common-le-lcs k)
