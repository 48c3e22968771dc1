-- ===== src/Pagewatch/Diff/Lcs/Table.antt =====
-- The table `dp` holds `lcs` of what is left of both sides, which no common subsequence exceeds.
use feedla.Prelude.{
  ℕ, zero, suc, ◌≤◌, ◌≡◌, refl, ap, String, List, [], ◌∷◌, get_or, drop, length, arith,
}
use feedla.Pagewatch.Diff.{lcs_row, zero_row, lcs_table, first_row, cell, head_or_zero}
use feedla.Pagewatch.Diff.Lcs.{lcs, Common, done, both, skip_prev, skip_curr}

-- The row of the table at `ps`, by the specification.
spec_row : List String → List String → List ℕ
spec_row ps [] = lcs ps [] ∷ []
spec_row ps (c ∷ cs) = lcs ps (c ∷ cs) ∷ spec_row ps cs

spec_table : List String → List String → List (List ℕ)
spec_table [] cs = spec_row [] cs ∷ []
spec_table (p ∷ ps) cs = spec_row (p ∷ ps) cs ∷ spec_table ps cs

first-spec_table : (ps cs : List String) → first_row (spec_table ps cs) ≡ spec_row ps cs
unfolding spec_table
first-spec_table [] cs = refl
first-spec_table (p ∷ ps) cs = refl

head-spec_row : (ps cs : List String) → head_or_zero (spec_row ps cs) ≡ lcs ps cs
unfolding spec_row
head-spec_row ps [] = refl
head-spec_row ps (c ∷ cs) = refl

zero_row_lem : (cs : List String) → zero_row cs ≡ spec_row [] cs
unfolding zero_row spec_row lcs
zero_row_lem [] = refl
zero_row_lem (c ∷ cs) = ap (◌∷◌ 0) (zero_row_lem cs)

lcs_row_lem :
    (p : String) (ps cs : List String) → lcs_row p cs (spec_row ps cs) ≡ spec_row (p ∷ ps) cs
unfolding lcs_row spec_row lcs
lcs_row_lem p ps [] = refl
lcs_row_lem p ps (c ∷ cs) =
    ground (arith, lcs_row_lem p ps cs, head-spec_row ps cs, head-spec_row (p ∷ ps) cs)

lcs_table_lem : (ps cs : List String) → lcs_table ps cs ≡ spec_table ps cs
unfolding lcs_table spec_table
lcs_table_lem [] cs = ap (λ r. r ∷ []) (zero_row_lem cs)
lcs_table_lem (p ∷ ps) cs = rw (lcs_table_lem ps cs, first-spec_table ps cs, lcs_row_lem p ps cs)

cell_row :
    (ps cs : List String) (j : ℕ) → j ≤ length cs → get_or (spec_row ps cs) j 0 ≡ lcs ps (drop j cs)
unfolding spec_row
cell_row ps [] zero h = refl
cell_row ps [] (suc j) h = absurd (omega arith)
cell_row ps (c ∷ cs) zero h = refl
cell_row ps (c ∷ cs) (suc j) h = cell_row ps cs j (omega arith)

row_table :
    (ps cs : List String) (i : ℕ)
    → i ≤ length ps
    → get_or (spec_table ps cs) i [] ≡ spec_row (drop i ps) cs
unfolding spec_table
row_table [] cs zero h = refl
row_table [] cs (suc i) h = absurd (omega arith)
row_table (p ∷ ps) cs zero h = refl
row_table (p ∷ ps) cs (suc i) h = row_table ps cs i (omega arith)

-- `dp[i][j]` is `lcs` of the keys from i and from j on.
pub cell-lcs :
    (ps cs : List String) (i j : ℕ)
    → i ≤ length ps
    → j ≤ length cs
    → cell (lcs_table ps cs) i j ≡ lcs (drop i ps) (drop j cs)
cell-lcs ps cs i j h k = rw (lcs_table_lem ps cs, row_table ps cs i h) (cell_row (drop i ps) cs j k)

lcs_comm : (ps cs : List String) → lcs ps cs ≡ lcs cs ps
unfolding lcs
lcs_comm [] [] = refl
lcs_comm [] (c ∷ cs) = refl
lcs_comm (p ∷ ps) [] = refl
lcs_comm (p ∷ ps) (c ∷ cs) =
    ground (arith, lcs_comm ps cs, lcs_comm ps (c ∷ cs), lcs_comm (p ∷ ps) cs)

prev-le-suc :
    (p : String) (ps cs : List String)
    → ((cs : List String) (c : String) → lcs ps cs ≤ lcs ps (c ∷ cs))
    → lcs (p ∷ ps) cs ≤ suc (lcs ps cs)
unfolding lcs
prev-le-suc p ps [] grows = omega arith
prev-le-suc p ps (c ∷ cs) grows = ground (arith, grows cs c, prev-le-suc p ps cs grows)

curr-le : (ps cs : List String) (c : String) → lcs ps cs ≤ lcs ps (c ∷ cs)
unfolding lcs
curr-le [] cs c = omega arith
curr-le (p ∷ ps) cs c = ground (arith, prev-le-suc p ps cs (curr-le ps))

prev-le : (p : String) (ps cs : List String) → lcs ps cs ≤ lcs (p ∷ ps) cs
prev-le p ps cs = rw (lcs_comm ps cs, lcs_comm (p ∷ ps) cs) (curr-le cs ps p)

-- No common sequence is longer than the length that the recursion gives.
pub Common-le-lcs : {zs ps cs : List String} → Common zs ps cs → length zs ≤ lcs ps cs
unfolding lcs
Common-le-lcs done = omega arith
Common-le-lcs (both {p = p} {c = c} e k) = ground (arith, Common-le-lcs k)
Common-le-lcs (skip_prev {p = p} {ps = ps} {cs = cs} k) =
    omega (arith, Common-le-lcs k, prev-le p ps cs)
Common-le-lcs (skip_curr {c = c} {ps = ps} {cs = cs} k) =
    omega (arith, Common-le-lcs k, curr-le ps cs c)
