-- ===== src/Api/Tokens.antt =====
-- internal/api/auth.go: a user's API tokens.
use feedla.Prelude.{ℕ, String, Option, none, some, List}
use feedla.Store.Table.{Result, ok, fail}
use feedla.Store.Accounts.{User}
use feedla.Store.Accounts.Tokens.{
  ApiToken, create_api_token, list_api_tokens_for_user, delete_api_token,
}
use feedla.Auth.Password.{PasswordOps, generate_token}
use feedla.Api.{
  Server, Response, token_created, token_list, write_json, write_error, write_store_error, unix,
}
use feedla.Api.Settings.{unauthorized, no_content}

abbrev pub token_made : String → Server → Result (List ApiToken × ApiToken) → Server × Response
token_made raw s (fail e) = (s, write_store_error e)
token_made raw s (ok made) =
    (record s { api_tokens = made.0 }, write_json 201 (token_created raw made.1))

module _ (ops : PasswordOps) where
  abbrev pub token_with : ℕ → User → String → Server → Option (String × String) → Server × Response
  token_with now u label s none = (s, write_error 500 "failed to create token")
  token_with now u label s (some token) =
      token_made token.0 s
        (create_api_token u.id label token.1 (unix now) s.accounts.users s.api_tokens)

  -- The body is the label.
  unfoldable pub handle_create_api_token :
      ℕ → Option (List ℕ) → Option User → Option String → Server → Server × Response
  unfolding generate_token create_api_token
  handle_create_api_token now bytes none body s = (s, unauthorized)
  handle_create_api_token now bytes (some u) none s = (s, write_error 400 "invalid JSON body")
  handle_create_api_token now bytes (some u) (some label) s =
      token_with now u label s (generate_token ops bytes)

unfoldable pub handle_list_api_tokens : Option User → Server → Server × Response
unfolding list_api_tokens_for_user
handle_list_api_tokens none s = (s, unauthorized)
handle_list_api_tokens (some u) s =
    (s, write_json 200 (token_list (list_api_tokens_for_user u.id s.api_tokens)))

abbrev pub token_deleted : Server → Result (List ApiToken) → Server × Response
token_deleted s (fail e) = (s, write_store_error e)
token_deleted s (ok tokens) = (record s { api_tokens = tokens }, no_content)

-- The id of the path, none where it is no number.
unfoldable pub handle_delete_api_token : Option User → Option ℕ → Server → Server × Response
unfolding delete_api_token
handle_delete_api_token none id s = (s, unauthorized)
handle_delete_api_token (some u) none s = (s, write_error 400 "invalid id")
handle_delete_api_token (some u) (some id) s =
    token_deleted s (delete_api_token u.id id s.api_tokens)
