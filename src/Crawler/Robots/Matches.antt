-- ===== src/Crawler/Robots/Matches.antt =====
-- How far `pathMatches` decides the pattern language.
use mathlib.Core.List.{append_assoc, append-nil}
use feedla.Prelude.{
  ℕ, ◌+◌, ◌≡◌, ◌≢◌, refl, ap, sym, ◌∙◌, Bool, true, false, List, [], ◌∷◌, ◌++◌, length,
  length-append, drop, arith, Bool-cases, Option-cases, inl, inr, All,
}
use feedla.Crawler.Robots.{
  Bytes, index, split, cons_first, scan, has_dollar, trim_dollar, path_matches, matches_from,
  is_empty, ends_at,
}
use feedla.Crawler.Robots.Glob.{
  Glob, done, byte, any, FitsFirst, Glob-FitsFirst, FitsFirst-Glob, split-ne-nil,
}
use feedla.Crawler.Robots.Scan.{first_sound, first_complete, drop-all}

ends_at_sound :
    (anchored : Bool) (s : Bytes) (segs : List Bytes) (path : Bytes)
    → ends_at anchored (length path) (scan true (s ∷ segs) path 0) ≡ true
    → (rest : Bytes) × FitsFirst (s ∷ segs) path rest × (anchored ≡ true → rest ≡ [])
ends_at_sound anchored s segs path h = elim (Option-cases (scan true (s ∷ segs) path 0)) [
  | inl failed ↦ absurd (ground arith)
  | inr (stop, run) ↦ (
    drop stop path,
    (first_sound s segs path stop run).1,
    λ a. let e : stop ≡ length path = ground arith in rw e (drop-all path),
  )
]

segments :
    (p : Bytes) (segs : List Bytes)
    → segs ≢ []
    → split b'*' p ≡ segs
    → (s : Bytes) × (ss : List Bytes) × (split b'*' p ≡ s ∷ ss)
segments p [] ne e = absurd (ne refl)
segments p (s ∷ ss) ne e = (s, ss, e)

matches_from_sound :
    (anchored : Bool) (p path : Bytes)
    → matches_from anchored p path ≡ true
    → (rest : Bytes) × Glob p path rest × (anchored ≡ true → rest ≡ [])
unfolding matches_from
matches_from_sound anchored [] path h = (path, done, λ a. emptied path (ground arith))
  where
    emptied : (path : Bytes) → is_empty path ≡ true → path ≡ []
    emptied [] e = refl
    emptied (c ∷ path) e = cc
matches_from_sound anchored (c ∷ p) path h =
    let (s, ss, e) = segments (c ∷ p) (split b'*' (c ∷ p)) (split-ne-nil b'*' (c ∷ p)) refl in
    let (rest, f, a) = ends_at_sound anchored s ss path (rw e at h) in
    (rest, FitsFirst-Glob (c ∷ p) path rest (rw e f), a)

matches_from_complete : (p path rest : Bytes) → Glob p path rest → matches_from false p path ≡ true
unfolding matches_from
matches_from_complete [] path rest g = refl
matches_from_complete (c ∷ p) path rest g =
    let (s, ss, e) = segments (c ∷ p) (split b'*' (c ∷ p)) (split-ne-nil b'*' (c ∷ p)) refl in
    let (stop, run, far) = first_complete s ss path rest (rw e at (Glob-FitsFirst g)) in
    rw e (rw run refl)

-- What the code accepts, the pattern takes: to the end of the path where it ends in a dollar sign.
pub path_matches_sound :
    (pattern path : Bytes)
    → path_matches pattern path ≡ true
    → (rest : Bytes) × Glob (trim_dollar pattern) path rest
      × (has_dollar pattern ≡ true → rest ≡ [])
unfolding path_matches
path_matches_sound pattern path h =
    matches_from_sound (has_dollar pattern) (trim_dollar pattern) path h

-- A pattern with no dollar sign at its end is accepted wherever it takes some beginning of the
-- path, although the code tries only the leftmost place for each segment.
pub path_matches_complete :
    (pattern path rest : Bytes)
    → has_dollar pattern ≡ false
    → Glob (trim_dollar pattern) path rest
    → path_matches pattern path ≡ true
unfolding path_matches
path_matches_complete pattern path rest h g =
    rw h (matches_from_complete (trim_dollar pattern) path rest g)

has_dollar-snoc : (q : Bytes) → has_dollar (q ++ b'$' ∷ []) ≡ true
unfolding has_dollar
has_dollar-snoc [] = refl
has_dollar-snoc (c ∷ []) = refl
has_dollar-snoc (c ∷ d ∷ q) = has_dollar-snoc (d ∷ q)

trim_dollar-snoc : (q : Bytes) → trim_dollar (q ++ b'$' ∷ []) ≡ q
unfolding trim_dollar
trim_dollar-snoc [] = refl
trim_dollar-snoc (c ∷ []) = refl
trim_dollar-snoc (c ∷ d ∷ q) = ap (◌∷◌ c) (trim_dollar-snoc (d ∷ q))

cons_first-append :
    (c : ℕ) (segs more : List Bytes)
    → segs ≢ []
    → cons_first c (segs ++ more) ≡ cons_first c segs ++ more
cons_first-append c [] more h = absurd (h refl)
cons_first-append c (s ∷ segs) more h = refl

split-snoc_star : (q : Bytes) → split b'*' (q ++ b'*' ∷ []) ≡ split b'*' q ++ [] ∷ []
unfolding split
split-snoc_star [] = refl
split-snoc_star (c ∷ q) =
    ground
      (arith, split-snoc_star q, cons_first-append c (split b'*' q) ([] ∷ []) (split-ne-nil b'*' q))

scan-snoc_empty :
    (first : Bool) (segs : List Bytes) (path : Bytes) (pos : ℕ)
    → scan first (segs ++ [] ∷ []) path pos ≡ scan first segs path pos
unfolding scan
scan-snoc_empty first [] path pos = refl
scan-snoc_empty first ([] ∷ segs) path pos = scan-snoc_empty false segs path pos
scan-snoc_empty first ((c ∷ s) ∷ segs) path pos =
    elim (Option-cases (index (c ∷ s) (drop pos path))) [
      | inl e ↦ ground arith
      | inr (i, e) ↦ ground (arith, scan-snoc_empty false segs path (pos + (i + length (c ∷ s))))
    ]

matches_from-snoc_star :
    (c : ℕ) (q path : Bytes)
    → matches_from true (c ∷ q ++ b'*' ∷ []) path ≡ matches_from true (c ∷ q) path
unfolding matches_from
matches_from-snoc_star c q path =
    rw (split-snoc_star (c ∷ q)) (rw (scan-snoc_empty true (split b'*' (c ∷ q)) path 0) refl)

dollar_lem : (q path : Bytes) → path_matches (q ++ b'$' ∷ []) path ≡ matches_from true q path
unfolding path_matches
dollar_lem q path = rw (has_dollar-snoc q, trim_dollar-snoc q)

star_dollar_lem :
    (c : ℕ) (q path : Bytes)
    → path_matches (c ∷ q ++ b'*' ∷ b'$' ∷ []) path ≡ path_matches (c ∷ q ++ b'$' ∷ []) path
star_dollar_lem c q path =
    ap (λ (w : Bytes). path_matches w path) (sym (append_assoc (c ∷ q) (b'*' ∷ []) (b'$' ∷ [])))
    ∙ (dollar_lem (c ∷ q ++ b'*' ∷ []) path
        ∙ (matches_from-snoc_star c q path ∙ sym (dollar_lem (c ∷ q) path)))

-- A pattern with no star takes itself alone.
literal_takes : {q path rest : Bytes} → All (λ c. c ≢ b'*') q → Glob q path rest → path ≡ q ++ rest
literal_takes a done = refl
literal_takes a (byte {c = c} n e g) = cc (e, literal_takes a.1 g)
literal_takes a (any gap e s g) = absurd (a.0 e)

literal_star : (q more : Bytes) → All (λ c. c ≢ b'*') q → Glob (q ++ b'*' ∷ []) (q ++ more) []
literal_star [] more a = any more refl (sym (append-nil more)) done
literal_star (c ∷ q) more a = byte a.0 refl (literal_star q more a.1)

-- Just before a dollar sign a star is lost: for every literal q that is not empty, the pattern q*$
-- takes the whole of any longer path that begins with q, and the code refuses each such path.
pub star_dollar_refused :
    (c : ℕ) (q : Bytes) (d : ℕ) (more : Bytes)
    → All (λ b. b ≢ b'*') (c ∷ q)
    → Glob (c ∷ q ++ b'*' ∷ []) (c ∷ q ++ d ∷ more) []
      × (path_matches (c ∷ q ++ b'*' ∷ b'$' ∷ []) (c ∷ q ++ d ∷ more) ≡ false)
star_dollar_refused c q d more a = (
  literal_star (c ∷ q) (d ∷ more) a,
  elim (Bool-cases (path_matches (c ∷ q ++ b'*' ∷ b'$' ∷ []) (c ∷ q ++ d ∷ more))) [
    | inr refused ↦ refused
    | inl accepted ↦
        let (rest, g, closed) = matches_from_sound true (c ∷ q) (c ∷ q ++ d ∷ more) (
          sym (dollar_lem (c ∷ q) (c ∷ q ++ d ∷ more))
          ∙ (sym (star_dollar_lem c q (c ∷ q ++ d ∷ more)) ∙ accepted)) in
        let e = literal_takes a g in
        absurd (
          omega (
            arith,
            ap length e,
            ap length (closed refl),
            length-append (c ∷ q) rest,
            length-append (c ∷ q) (d ∷ more),
          ))
  ],
)
