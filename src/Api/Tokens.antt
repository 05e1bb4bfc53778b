-- ===== src/Api/Tokens.antt =====
-- internal/api/api.go: the handlers `listTokens`, `createToken` and `deleteToken`, and
-- `newAPIToken`. SHA-256 in hex is the parameter `hash`; a fresh token comes as the hex of its random
-- bytes, `none` if there is no randomness. That the connection to the database fails is not modelled.
pub mod Life
mod Tests
use lukscrypt.Prelude.{
  ℕ, Text, Bool, false, Option, none, some, List, [], map, text, ◌++◌, trim_space, is_empty, length,
  ltb, ◌||◌, contains, if◌then◌else◌,
}
use lukscrypt.Prelude.Int.{ℤ, pos, negsuc}
use lukscrypt.Sys.{Res, ok, err}
use lukscrypt.Db.{Db, ApiToken, create_api_token, delete_api_token, get_api_token_by_hash}
use lukscrypt.Db.Listing.{list_api_tokens}
use lukscrypt.Api.Input.{parse_id}
use lukscrypt.Api.Reply.{Reply, done, refusal}

-- `apiTokenResponse`: the hash is not part of it, and the secret only where a token is made.
pub record ApiTokenResponse : Type 0 where
  pub id : ℕ
  pub name : Text
  pub created_at : Text
  pub last_used_at : Text
  pub token : Text

shown : ApiToken → ApiTokenResponse
shown t = record {
  id = t.id;
  name = t.name;
  created_at = t.created_at;
  last_used_at = t.last_used_at;
  token = [];
}

unfoldable pub list_tokens : Db → Reply (List ApiTokenResponse)
unfolding shown list_api_tokens
list_tokens d = done (map shown (list_api_tokens d))

unfoldable pub new_api_token : (random_hex : Option Text) → Option Text
new_api_token none = none
new_api_token (some hex) = some (text "lukscrypt_" ++ hex)

issued : (raw : Text) → Res ApiToken → Reply ApiTokenResponse
issued raw (ok t) =
    done (record {
      id = t.id;
      name = t.name;
      created_at = t.created_at;
      last_used_at = [];
      token = raw;
    })
issued raw (err e) =
    if contains e (text "UNIQUE")
    then refusal 409 (text "a token with this name already exists")
    else refusal 500 (text "failed to create token")

module _ (hash : Text → Text) where
  store_token : (now name : Text) → Option Text → Db → Reply ApiTokenResponse × Db
  unfolding create_api_token issued
  store_token now name none d = (refusal 500 (text "failed to generate token"), d)
  store_token now name (some raw) d =
      let (created, d') = create_api_token now name (hash raw) d in (issued raw created, d')

  check_name : (now name : Text) → (random_hex : Option Text) → Db → Reply ApiTokenResponse × Db
  unfolding store_token new_api_token
  check_name now name random_hex d =
      if is_empty name || ltb 64 (length name)
      then (refusal 400 (text "name is required (max 64 chars)"), d)
      else store_token now name (new_api_token random_hex) d

  -- The body's name, `none` if it cannot be decoded.
  unfoldable pub create_token :
      (now : Text)
      → (random_hex : Option Text) → (name : Option Text) → Db
      → Reply ApiTokenResponse × Db
  unfolding check_name trim_space
  create_token now random_hex none d = (refusal 400 (text "invalid request body"), d)
  create_token now random_hex (some name) d = check_name now (trim_space name) random_hex d

-- What `validAPICredentials` asks the database.
unfoldable pub token_by_hash : Db → Text → Option ℕ
unfolding get_api_token_by_hash
token_by_hash d h = elim (get_api_token_by_hash h d) [ none ↦ none | some t ↦ some t.id ]

-- No row has a negative id.
delete_row : ℤ → Db → Bool × Db
unfolding delete_api_token
delete_row (pos id) d = delete_api_token id d
delete_row (negsuc n) d = (false, d)

revoke : Option ℤ → Db → Reply (Unit {0}) × Db
unfolding delete_row
revoke none d = (refusal 400 (text "invalid token id"), d)
revoke (some id) d =
    let (deleted, d') = delete_row id d in
    (if deleted then done tt else refusal 404 (text "token not found"), d')

unfoldable pub delete_token : (id : Text) → Db → Reply (Unit {0}) × Db
unfolding revoke parse_id
delete_token id d = revoke (parse_id id) d
