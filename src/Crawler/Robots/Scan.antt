-- ===== src/Crawler/Robots/Scan.antt =====
-- The loop of `pathMatches`: what it accepts fits, and what fits it accepts.
use mathlib.Core.List.{append_assoc}
use native.Mathlib.Nat.{zero-add}
use feedla.Prelude.{
  ℕ_discrete, ℕ, ◌+◌, ◌≤◌, ◌≡◌, refl, ap, sym, ◌∙◌, true, false, some, List, [], ◌∷◌, ◌++◌, length,
  length-append, drop, length-drop, arith, Option-cases, inl, inr,
}
use feedla.Crawler.Robots.{Bytes, index, scan}
use feedla.Crawler.Robots.Index.{index_sound, index-zero, index_complete, drop-add, drop-append_le}
use feedla.Crawler.Robots.Glob.{Fits, end, next, FitsFirst}

scan_step :
    (c : ℕ) (seg : Bytes) (segs : List Bytes) (path : Bytes) (pos i : ℕ)
    → index (c ∷ seg) (drop pos path) ≡ some i
    → scan false ((c ∷ seg) ∷ segs) path pos ≡ scan false segs path (pos + (i + length (c ∷ seg)))
unfolding scan
scan_step c seg segs path pos i h = rw (h, scan)

-- What is left of the path behind a segment that was found early enough.
skip_past :
    (seg before mid path : Bytes) (pos i : ℕ)
    → i ≤ length before
    → drop pos path ≡ before ++ (seg ++ mid)
    → (pos ≤ length path → pos + (i + length seg) ≤ length path)
      × (drop (pos + (i + length seg)) path ≡ drop (i + length seg) (before ++ seg) ++ mid)
skip_past seg before mid path pos i early here = (
  λ room. omega (
    arith,
    ap length here,
    length-append before (seg ++ mid),
    length-append seg mid,
    length-drop pos path,
  ),
  sym (drop-add pos (i + length seg) path)
      ∙ (ap (drop (i + length seg)) (here ∙ sym (append_assoc before seg mid))
          ∙ drop-append_le (i + length seg) (before ++ seg) mid
              (omega (arith, length-append before seg))),
)

-- The loop behind a star: what it accepts fits.
scan_sound :
    (segs : List Bytes) (path : Bytes) (pos stop : ℕ)
    → scan false segs path pos ≡ some stop
    → pos ≤ length path
    → (stop ≤ length path) × Fits segs (drop pos path) (drop stop path)
unfolding scan
scan_sound [] path pos stop h room = let e : pos ≡ stop = ground arith in rw (← e) (room, end)
scan_sound ([] ∷ segs) path pos stop h room =
    let rest = scan_sound segs path pos stop h room in (rest.0, next [] refl rest.1)
scan_sound ((c ∷ seg) ∷ segs) path pos stop h room =
    elim (Option-cases (index (c ∷ seg) (drop pos path))) [
      | inl none_found ↦ absurd (ground arith)
      | inr (i, found) ↦
          step c seg segs path pos stop i room (index_sound (c ∷ seg) (drop pos path) i found)
            (λ room'.
              scan_sound segs path (pos + (i + length (c ∷ seg))) stop
                (sym (scan_step c seg segs path pos i found) ∙ h) room')
    ]
  where
    step :
        (c : ℕ) (seg : Bytes) (segs : List Bytes) (path : Bytes) (pos stop i : ℕ)
        → pos ≤ length path
        → (i + length (c ∷ seg) ≤ length (drop pos path))
          × ((gap : Bytes) × (drop pos path
                ≡ gap ++ (c ∷ seg ++ drop (i + length (c ∷ seg)) (drop pos path))))
        → (pos + (i + length (c ∷ seg)) ≤ length path
            → (stop ≤ length path)
              × Fits segs (drop (pos + (i + length (c ∷ seg))) path) (drop stop path))
        → (stop ≤ length path) × Fits ((c ∷ seg) ∷ segs) (drop pos path) (drop stop path)
    step c seg segs path pos stop i room found later =
        let (gap, there) = found.1 in
        let rest = later (omega (arith, found.0, length-drop pos path)) in
        (
          rest.0,
          next gap
              (there
                ∙ ap (λ (d : Bytes). gap ++ (c ∷ seg ++ d))
                    (drop-add pos (i + length (c ∷ seg)) path))
              rest.1,
        )

-- What fits, the loop finds, and no later than there.
scan_complete :
    {segs : List Bytes} {mid rest : Bytes}
    → Fits segs mid rest
    → (path : Bytes) (pos : ℕ) (skipped : Bytes) → pos ≤ length path
    → drop pos path ≡ skipped ++ mid
    → (stop : ℕ) × (scan false segs path pos ≡ some stop) × (stop + length rest ≤ length path)
unfolding scan
scan_complete (end {path = mid}) path pos skipped room e =
    (pos, refl, omega (arith, ap length e, length-append skipped mid, length-drop pos path))
scan_complete (next {seg = []} {mid = mid} gap s f) path pos skipped room e =
    scan_complete f path pos (skipped ++ gap) room
      (e ∙ (ap (◌++◌ skipped) s ∙ sym (append_assoc skipped gap mid)))
scan_complete (next {seg = c ∷ seg} {mid = mid} {segs = segs} gap s f) path pos skipped room e =
    let (i, found, early) = index_complete (skipped ++ gap) (c ∷ seg) mid in
    let here = e ∙ (ap (◌++◌ skipped) s ∙ sym (append_assoc skipped gap (c ∷ seg ++ mid))) in
    let past = skip_past (c ∷ seg) (skipped ++ gap) mid path pos i early here in
    let (stop, run, far) =
      scan_complete f path (pos + (i + length (c ∷ seg)))
        (drop (i + length (c ∷ seg)) (skipped ++ gap ++ c ∷ seg)) (past.0 room) past.1 in
    (stop, scan_step c seg segs path pos i (rw here found) ∙ run, far)

pub first_sound :
    (s : Bytes) (segs : List Bytes) (path : Bytes) (stop : ℕ)
    → scan true (s ∷ segs) path 0 ≡ some stop
    → (stop ≤ length path) × FitsFirst (s ∷ segs) path (drop stop path)
unfolding scan
first_sound [] segs path stop h =
    let rest = scan_sound segs path 0 stop h (omega arith) in (rest.0, (path, refl, rest.1))
first_sound (c ∷ s) segs path stop h = elim (Option-cases (index (c ∷ s) path)) [
  | inl nowhere ↦ absurd (ground arith)
  | inr (i, found) ↦ elim (ℕ_discrete i 0) [
    | no later ↦ absurd (ground arith)
    | yes start ↦
        let found' : index (c ∷ s) path ≡ some 0 = found ∙ ap some start in
        let here = index-zero (c ∷ s) path found' in
        let run : scan false segs path (length (c ∷ s)) ≡ some stop =
          ground (arith, zero-add (length (c ∷ s))) in
        let rest =
          scan_sound segs path (length (c ∷ s)) stop run
            (omega (arith, ap length here, length-append (c ∷ s) (drop (length (c ∷ s)) path))) in
        (rest.0, (drop (length (c ∷ s)) path, here, rest.1))
  ]
]

first_step :
    (c : ℕ) (s : Bytes) (segs : List Bytes) (path : Bytes)
    → index (c ∷ s) path ≡ some 0
    → scan true ((c ∷ s) ∷ segs) path 0 ≡ scan false segs path (length (c ∷ s))
unfolding scan
first_step c s segs path h = ground (arith, zero-add (length (c ∷ s)))

pub first_complete :
    (s : Bytes) (segs : List Bytes) (path rest : Bytes)
    → FitsFirst (s ∷ segs) path rest
    → (stop : ℕ) × (scan true (s ∷ segs) path 0 ≡ some stop) × (stop + length rest ≤ length path)
unfolding scan
first_complete [] segs path rest (mid, e, f) = scan_complete f path 0 [] (omega arith) e
first_complete (c ∷ s) segs path rest (mid, e, f) =
    let (i, found, start) = index_complete [] (c ∷ s) mid in
    let at_start : i ≡ 0 = omega arith in
    let (stop, run, far) =
      scan_complete f path (length (c ∷ s)) (drop (length (c ∷ s)) (c ∷ s))
        (omega (arith, ap length e, length-append (c ∷ s) mid))
        (ap (drop (length (c ∷ s))) e
          ∙ drop-append_le (length (c ∷ s)) (c ∷ s) mid (omega arith)) in
    (stop, first_step c s segs path (rw e (found ∙ ap some at_start)) ∙ run, far)

pub drop-all : (xs : Bytes) → drop (length xs) xs ≡ []
drop-all [] = refl
drop-all (x ∷ xs) = drop-all xs
