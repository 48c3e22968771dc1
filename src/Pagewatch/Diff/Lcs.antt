-- ===== src/Pagewatch/Diff/Lcs.antt =====
-- The LCS path of the diff: what it keeps is one sequence common to both sides, as long as any.
pub mod Table
pub mod Walk
use feedla.Prelude.{ℕ, suc, ◌+◌, max, ◌≡◌, String, string_discrete, List, [], ◌∷◌, ite}

-- The recurrence of `dp`, for the length of a longest common subsequence.
unfoldable pub lcs : List String → List String → ℕ
lcs [] cs = 0
lcs (p ∷ ps) [] = 0
lcs (p ∷ ps) (c ∷ cs) =
    let both = lcs ps cs in
    let skip_prev = lcs ps (c ∷ cs) in
    let skip_curr = lcs (p ∷ ps) cs in
    ite (string_discrete p c) (suc both) (max skip_prev skip_curr)

-- A sequence that both sides contain in order.
pub data Common : List String → List String → List String → Type 0 where
  done : Common [] [] []
  both :
      {p c : String} {zs ps cs : List String}
      → p ≡ c
      → Common zs ps cs
      → Common (p ∷ zs) (p ∷ ps) (c ∷ cs)
  skip_prev : {p : String} {zs ps cs : List String} → Common zs ps cs → Common zs (p ∷ ps) cs
  skip_curr : {c : String} {zs ps cs : List String} → Common zs ps cs → Common zs ps (c ∷ cs)
