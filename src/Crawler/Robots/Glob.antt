-- ===== src/Crawler/Robots/Glob.antt =====
-- The pattern language of robots.txt as a relation, by bytes and by the segments between the stars.
use feedla.Prelude.{
  ℕ_discrete, ℕ, ◌≡◌, ◌≢◌, refl, ap, ◌∙◌, true, false, List, [], ◌∷◌, ◌++◌, ◌==◌, arith, Bool-cases,
  inl, inr,
}
use feedla.Crawler.Robots.{Bytes, split, cons_first}

-- `Glob pattern path rest`: the pattern, whose stars stand for any bytes, takes the path up to
-- rest.
pub data Glob : Bytes → Bytes → Bytes → Type 0 where
  done : {path : Bytes} → Glob [] path path
  byte :
      {c d : ℕ} {p path rest : Bytes}
      → c ≢ b'*'
      → c ≡ d
      → Glob p path rest
      → Glob (c ∷ p) (d ∷ path) rest
  any :
      {c : ℕ} {p path mid rest : Bytes} (gap : Bytes)
      → c ≡ b'*'
      → path ≡ gap ++ mid
      → Glob p mid rest
      → Glob (c ∷ p) path rest

-- The segments between the stars, each behind a gap.
pub data Fits : List Bytes → Bytes → Bytes → Type 0 where
  end : {path : Bytes} → Fits [] path path
  next :
      {seg path mid rest : Bytes} {segs : List Bytes} (gap : Bytes)
      → path ≡ gap ++ (seg ++ mid)
      → Fits segs mid rest
      → Fits (seg ∷ segs) path rest

-- The first segment stands at the start.
abbrev pub FitsFirst : List Bytes → Bytes → Bytes → Type 0
FitsFirst [] path rest = ⊥
FitsFirst (seg ∷ segs) path rest = (mid : Bytes) × (path ≡ seg ++ mid) × Fits segs mid rest

first_byte :
    (c : ℕ) (segs : List Bytes) (path rest : Bytes)
    → FitsFirst segs path rest
    → FitsFirst (cons_first c segs) (c ∷ path) rest
first_byte c [] path rest e = absurd e
first_byte c (s ∷ segs) path rest (mid, e, f) = (mid, ap (◌∷◌ c) e, f)

after_gap :
    (segs : List Bytes) (gap path mid rest : Bytes)
    → path ≡ gap ++ mid
    → FitsFirst segs mid rest
    → Fits segs path rest
after_gap [] gap path mid rest e f = absurd f
after_gap (s ∷ segs) gap path mid rest e (mid', e', f) = next gap (e ∙ ap (◌++◌ gap) e') f

is_star : (c : ℕ) → c ≡ b'*' → (c == b'*') ≡ true
is_star c e = ground arith

not_star : (c : ℕ) → c ≢ b'*' → (c == b'*') ≡ false
not_star c n = ground arith

-- The relation is what the code's segments say.
pub Glob-FitsFirst : {p path rest : Bytes} → Glob p path rest → FitsFirst (split b'*' p) path rest
unfolding split
Glob-FitsFirst (done {path = path}) = (path, refl, end)
Glob-FitsFirst (byte {c = c} {p = p} {path = path} {rest = rest} n e g) =
    rw (not_star c n, ← e) (first_byte c (split b'*' p) path rest (Glob-FitsFirst g))
Glob-FitsFirst (any {c = c} {p = p} {path = path} {mid = mid} {rest = rest} gap e s g) =
    rw (is_star c e) (path, refl, after_gap (split b'*' p) gap path mid rest s (Glob-FitsFirst g))

pub split-ne-nil : (sep : ℕ) (p : Bytes) → split sep p ≢ []
unfolding split
split-ne-nil sep [] h = cc
split-ne-nil sep (c ∷ p) h = elim (Bool-cases (c == sep)) [
  | inl e ↦ cc (rw e at h)
  | inr e ↦ cons_first-ne-nil c (split sep p) (rw e at h)
]
  where
    cons_first-ne-nil : (c : ℕ) (segs : List Bytes) → cons_first c segs ≢ []
    cons_first-ne-nil c [] h = cc
    cons_first-ne-nil c (s ∷ segs) h = cc

byte_first :
    (c : ℕ) (p : Bytes) (segs : List Bytes) (path rest : Bytes)
    → c ≢ b'*'
    → segs ≢ []
    → ((path' : Bytes) → FitsFirst segs path' rest → Glob p path' rest)
    → FitsFirst (cons_first c segs) path rest
    → Glob (c ∷ p) path rest
byte_first c p [] path rest n ne ih f = absurd (ne refl)
byte_first c p (s ∷ segs) path rest n ne ih (mid, e, f) =
    rw e (byte n refl (ih (s ++ mid) (mid, refl, f)))

star-Fits :
    (c : ℕ) (p : Bytes) (segs : List Bytes) (path rest : Bytes)
    → c ≡ b'*'
    → segs ≢ []
    → ((path' : Bytes) → FitsFirst segs path' rest → Glob p path' rest)
    → Fits segs path rest
    → Glob (c ∷ p) path rest
star-Fits c p [] path rest e ne ih f = absurd (ne refl)
star-Fits c p (s ∷ segs) path rest e ne ih (next {mid = mid} gap e' f) =
    any gap e e' (ih (s ++ mid) (mid, refl, f))

star_first :
    (c : ℕ) (p : Bytes) (segs : List Bytes) (path rest : Bytes)
    → c ≡ b'*'
    → segs ≢ []
    → ((path' : Bytes) → FitsFirst segs path' rest → Glob p path' rest)
    → FitsFirst ([] ∷ segs) path rest
    → Glob (c ∷ p) path rest
star_first c p segs path rest e ne ih (mid, e', f) = rw e' (star-Fits c p segs mid rest e ne ih f)

pub FitsFirst-Glob : (p path rest : Bytes) → FitsFirst (split b'*' p) path rest → Glob p path rest
unfolding split
FitsFirst-Glob [] path rest (mid, e, end) = rw e done
FitsFirst-Glob (c ∷ p) path rest f =
    let ih = λ (path' : Bytes) (f' : FitsFirst (split b'*' p) path' rest).
      FitsFirst-Glob p path' rest f' in
    elim (ℕ_discrete c b'*') [
      | yes e ↦
          star_first c p (split b'*' p) path rest e (split-ne-nil b'*' p) ih (rw (is_star c e) at f)
      | no n ↦
          byte_first c p (split b'*' p) path rest n (split-ne-nil b'*' p) ih
            (rw (not_star c n) at f)
    ]
