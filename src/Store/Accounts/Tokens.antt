-- ===== src/Store/Accounts/Tokens.antt =====
-- internal/store/api_tokens.go: long-lived credentials, in a table of their own beside the
-- accounts.
use feedla.Prelude.{
  ℕ, String, not, ◌&&◌, ◌||◌, Option, none, some, List, [], ◌∷◌, ◌++◌, ltb, ◌==◌, if◌then◌else◌,
}
use feedla.Store.Table.{
  Result, ok, fail, err_not_found, err_other, update, remove, count_where, next_id,
}
use feedla.Store.Accounts.{User, same_text, has_user}

pub record ApiToken : Type 0 where
  pub id : ℕ
  pub token_hash : String
  pub user_id : ℕ
  pub label : String
  pub created_at : ℕ
  pub last_used_at : Option ℕ

-- UNIQUE(token_hash) and REFERENCES users(id).
unfoldable pub create_api_token :
    ℕ → String → String → ℕ → List User → List ApiToken → Result (List ApiToken × ApiToken)
create_api_token user label token now users tokens =
    let t : ApiToken = record {
      id = next_id (λ (x : ApiToken). x.id) tokens;
      token_hash = token;
      user_id = user;
      label = label;
      created_at = now;
      last_used_at = none;
    } in
    if ltb 0 (count_where (λ (x : ApiToken). same_text x.token_hash token) tokens)
      || not (has_user user users)
    then fail err_other
    else ok (tokens ++ t ∷ [], t)

-- The row of the join of a token with its enabled owner.
unfoldable pub token_owner : List User → ApiToken → Option (ApiToken × User)
token_owner [] t = none
token_owner (u ∷ users) t =
    let rest = token_owner users t in
    if (u.id == t.user_id) && not u.is_disabled then some (t, u) else rest

unfoldable pub find_token : String → List User → List ApiToken → Option (ApiToken × User)
unfolding token_owner
find_token token users [] = none
find_token token users (t ∷ tokens) =
    let rest = find_token token users tokens in
    if same_text t.token_hash token
    then elim (token_owner users t) [ none ↦ rest | some p ↦ some p ]
    else rest

abbrev pub found_token : Option (ApiToken × User) → Result (ApiToken × User)
found_token none = fail err_not_found
found_token (some p) = ok p

unfoldable pub get_api_token_by_hash : String → List User → List ApiToken → Result (ApiToken × User)
unfolding find_token
get_api_token_by_hash token users tokens = found_token (find_token token users tokens)

-- `ORDER BY created_at DESC`: the newest first.
abbrev pub place_newest : ApiToken → List ApiToken → List ApiToken
place_newest t [] = t ∷ []
place_newest t (x ∷ tokens) =
    let rest = place_newest t tokens in
    if ltb t.created_at x.created_at then x ∷ rest else t ∷ x ∷ tokens

unfoldable pub list_api_tokens_for_user : ℕ → List ApiToken → List ApiToken
list_api_tokens_for_user user [] = []
list_api_tokens_for_user user (t ∷ tokens) =
    let rest = list_api_tokens_for_user user tokens in
    if t.user_id == user then place_newest t rest else rest

unfoldable pub delete_api_token : ℕ → ℕ → List ApiToken → Result (List ApiToken)
delete_api_token user id tokens =
    if count_where (λ (t : ApiToken). (t.id == id) && (t.user_id == user)) tokens == 0
    then fail err_not_found
    else ok (remove (λ (t : ApiToken). (t.id == id) && (t.user_id == user)) tokens)

unfoldable pub touch_api_token_last_used : ℕ → ℕ → List ApiToken → List ApiToken
touch_api_token_last_used id now tokens =
    update (λ (t : ApiToken). t.id == id) (λ t. record t { last_used_at = some now }) tokens
