-- ===== src/Store/Accounts/Sessions/Rows.antt =====
-- A session or a token that is found is a row of its table, and so is its owner.
use feedla.Prelude.{
  ◌≡◌, inl, inr, String, some, List, [], ◌∷◌, ◌==◌, arith, Bool-cases, Option-cases, All, not, ◌&&◌,
  ap, sym, subst, ◌∙◌, ◌⊎◌,
}
use feedla.Store.Table.{ok}
use feedla.Store.Accounts.{Accounts, User, Session}
use feedla.Store.Accounts.Sessions.{owner, find_session, get_session_by_token_hash}
use feedla.Store.Accounts.Tokens.{ApiToken, token_owner, find_token, get_api_token_by_hash}

owner-first :
    (x u : User) (users : List User) (s t : Session)
    → owner (x ∷ users) s ≡ some (t, u)
    → ((t ≡ s) × (x ≡ u) × (x.id ≡ s.user_id)) ⊎ (owner users s ≡ some (t, u))
unfolding owner
owner-first x u users s t h = elim (Bool-cases ((x.id == s.user_id) && not x.is_disabled)) [
  | inl e ↦ inl (ground (arith, h, e), ground (arith, h, e), ground (arith, e))
  | inr e ↦ inr (ground (arith, h, e))
]

find_session-first :
    (token : String) (users : List User) (x s : Session) (sessions : List Session) (u : User)
    → find_session token users (x ∷ sessions) ≡ some (s, u)
    → ((x.token_hash ≡ token) × (owner users x ≡ some (s, u)))
      ⊎ (find_session token users sessions ≡ some (s, u))
unfolding find_session
find_session-first token users x s sessions u h = ground (arith, h)

token_owner-first :
    (x u : User) (users : List User) (s t : ApiToken)
    → token_owner (x ∷ users) s ≡ some (t, u)
    → ((t ≡ s) × (x ≡ u) × (x.id ≡ s.user_id)) ⊎ (token_owner users s ≡ some (t, u))
unfolding token_owner
token_owner-first x u users s t h = elim (Bool-cases ((x.id == s.user_id) && not x.is_disabled)) [
  | inl e ↦ inl (ground (arith, h, e), ground (arith, h, e), ground (arith, e))
  | inr e ↦ inr (ground (arith, h, e))
]

find_token-first :
    (token : String) (users : List User) (x s : ApiToken) (tokens : List ApiToken) (u : User)
    → find_token token users (x ∷ tokens) ≡ some (s, u)
    → ((x.token_hash ≡ token) × (token_owner users x ≡ some (s, u)))
      ⊎ (find_token token users tokens ≡ some (s, u))
unfolding find_token
find_token-first token users x s tokens u h = ground (arith, h)

-- What holds of every row holds of the row that is found.
module _ (Q : User → Type 0) where
  owner-All :
      (users : List User) (s t : Session) (u : User)
      → All Q users
      → owner users s ≡ some (t, u)
      → (t ≡ s) × (u.id ≡ s.user_id) × Q u
  unfolding owner
  owner-All [] s t u a h = cc h
  owner-All (x ∷ users) s t u (q, a) h = elim (owner-first x u users s t h) [
    | inl (e, f, i) ↦ (e, ap (λ (v : User). v.id) (sym f) ∙ i, subst Q f q)
    | inr k ↦ owner-All users s t u a k
  ]

  token_owner-All :
      (users : List User) (s t : ApiToken) (u : User)
      → All Q users
      → token_owner users s ≡ some (t, u)
      → (t ≡ s) × (u.id ≡ s.user_id) × Q u
  unfolding token_owner
  token_owner-All [] s t u a h = cc h
  token_owner-All (x ∷ users) s t u (q, a) h = elim (token_owner-first x u users s t h) [
    | inl (e, f, i) ↦ (e, ap (λ (v : User). v.id) (sym f) ∙ i, subst Q f q)
    | inr k ↦ token_owner-All users s t u a k
  ]

  find_session-All :
      (P : Session → Type 0) (token : String) (users : List User) (sessions : List Session)
      (s : Session) (u : User)
      → All P sessions
      → All Q users
      → find_session token users sessions ≡ some (s, u)
      → (s.token_hash ≡ token) × (u.id ≡ s.user_id) × P s × Q u
  unfolding find_session
  find_session-All P token users [] s u a b h = cc h
  find_session-All P token users (x ∷ sessions) s u (p, a) b h =
      elim (find_session-first token users x s sessions u h) [
        | inl (e, k) ↦
            let (f, i, q) = owner-All users x s u b k in
            (
              ap (λ (v : Session). v.token_hash) f ∙ e,
              i ∙ ap (λ (v : Session). v.user_id) (sym f),
              subst P (sym f) p,
              q,
            )
        | inr k ↦ find_session-All P token users sessions s u a b k
      ]

  find_token-All :
      (P : ApiToken → Type 0) (token : String) (users : List User) (tokens : List ApiToken)
      (s : ApiToken) (u : User)
      → All P tokens
      → All Q users
      → find_token token users tokens ≡ some (s, u)
      → (s.token_hash ≡ token) × (u.id ≡ s.user_id) × P s × Q u
  unfolding find_token
  find_token-All P token users [] s u a b h = cc h
  find_token-All P token users (x ∷ tokens) s u (p, a) b h =
      elim (find_token-first token users x s tokens u h) [
        | inl (e, k) ↦
            let (f, i, q) = token_owner-All users x s u b k in
            (
              ap (λ (v : ApiToken). v.token_hash) f ∙ e,
              i ∙ ap (λ (v : ApiToken). v.user_id) (sym f),
              subst P (sym f) p,
              q,
            )
        | inr k ↦ find_token-All P token users tokens s u a b k
      ]

  pub session_row :
      (P : Session → Type 0) (token : String) (db : Accounts) (s : Session) (u : User)
      → All P db.sessions
      → All Q db.users
      → get_session_by_token_hash token db ≡ ok (s, u)
      → (s.token_hash ≡ token) × (u.id ≡ s.user_id) × P s × Q u
  unfolding get_session_by_token_hash
  session_row P token db s u a b h = elim (Option-cases (find_session token db.users db.sessions)) [
    | inl e ↦ cc (h, e)
    | inr ((t, v), e) ↦ find_session-All P token db.users db.sessions s u a b (cc (h, e))
  ]

  pub token_row :
      (P : ApiToken → Type 0) (token : String) (users : List User) (tokens : List ApiToken)
      (s : ApiToken) (u : User)
      → All P tokens
      → All Q users
      → get_api_token_by_hash token users tokens ≡ ok (s, u)
      → (s.token_hash ≡ token) × (u.id ≡ s.user_id) × P s × Q u
  unfolding get_api_token_by_hash
  token_row P token users tokens s u a b h = elim (Option-cases (find_token token users tokens)) [
    | inl e ↦ cc (h, e)
    | inr ((t, v), e) ↦ find_token-All P token users tokens s u a b (cc (h, e))
  ]
