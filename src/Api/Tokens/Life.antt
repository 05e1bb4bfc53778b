-- ===== src/Api/Tokens/Life.antt =====
-- A token from its creation to its revocation.
use lukscrypt.Prelude.{
  ℕ, ◌≡◌, refl, ap, Text, Bool, true, false, not, ◌&&◌, ◌||◌, Option, none, some, [], ◌∷◌, ◌++◌,
  ◌≤◌, ◌<◌, ◌^◌, arith, text, trim_left, trim_space, strip_prefix, is_space, is_empty, all,
  all-append, all-reverse, length, leb, ltb, reverse, reverse-reverse, if◌then◌else◌,
}
use lukscrypt.Prelude.Int.{pos}
use lukscrypt.Prelude.Decimal.{itoa, parse_int-itoa}
use lukscrypt.Sys.{ok}
use lukscrypt.Db.{
  Db, ApiToken, has_token, create_api_token, get_api_token_by_hash, delete_api_token,
}
use lukscrypt.Db.Tokens.{create_api_token_life}
use lukscrypt.Api.Input.{parse_id}
use lukscrypt.Api.Reply.{done, refusal}
use lukscrypt.Api.Auth.{Request, Config, valid_api_credentials}
use lukscrypt.Api.Tokens.{
  ApiTokenResponse, issued, store_token, create_token, token_by_hash, revoke, delete_token,
}

abbrev is_solid : ℕ → Bool
is_solid c = not (is_space c)

-- What `hex.EncodeToString` writes.
abbrev pub is_hex : ℕ → Bool
is_hex c = (leb b'0' c && leb c b'9') || (leb b'a' c && leb c b'f')

all_solid : (s : Text) → all is_hex s ≡ true → all is_solid s ≡ true
all_solid [] h = refl
all_solid (c ∷ s) h = ground (arith, all_solid s)

trim_left-solid : (s : Text) → all is_solid s ≡ true → trim_left s ≡ s
unfolding trim_left
trim_left-solid [] h = refl
trim_left-solid (c ∷ s) h = ground arith

trim_space-solid : (s : Text) → all is_solid s ≡ true → trim_space s ≡ s
unfolding trim_space
trim_space-solid s h =
    rw (trim_left-solid s h, trim_left-solid (reverse s) (all-reverse is_solid s h))
      (reverse-reverse s)

abbrev pub secret : Text → Text
secret hex = text "lukscrypt_" ++ hex

prefix_solid : all is_solid (text "lukscrypt_") ≡ true
unfolding text
prefix_solid = refl

trim_space-secret : (hex : Text) → all is_hex hex ≡ true → trim_space (secret hex) ≡ secret hex
trim_space-secret hex h =
    trim_space-solid (secret hex)
      (all-append is_solid (text "lukscrypt_") hex prefix_solid (all_solid hex h))

-- The request shows the token in its header.
abbrev pub bearing : Text → Request → Request
bearing token r = record r { authorization = text "Bearer " ++ token }

valid_api_credentials-bearing :
    (hash : Text → Text) (find : Text → Option ℕ) (c : Config) (r : Request) (token : Text)
    → trim_space token ≡ token
    → valid_api_credentials hash find c (bearing token r)
      ≡ elim (find (hash token)) [ none ↦ none | some id ↦ some (some id) ]
unfolding text strip_prefix valid_api_credentials
valid_api_credentials-bearing hash find c r token solid = rw solid refl

token_by_hash_lem :
    (h : Text) (d : Db) (o : Option ApiToken)
    → get_api_token_by_hash h d ≡ o
    → token_by_hash d h ≡ elim o [ none ↦ none | some t ↦ some t.id ]
unfolding token_by_hash
token_by_hash_lem h d o e = ap (λ p. elim p [ none ↦ none | some t ↦ some t.id ]) e

module _ (hash : Text → Text) (now hex name : Text) (d : Db) where
  create_token_lem :
      is_empty (trim_space name) ≡ false
      → length (trim_space name) ≤ 64
      → create_token hash now (some hex) (some name) d
        ≡ store_token hash now (trim_space name) (some (secret hex)) d
  unfolding create_token store_token
  create_token_lem given short =
      let fits : ltb 64 (length (trim_space name)) ≡ false = ground (arith, short) in
      rw (given, fits) refl

  delete_token_lem :
      (d' : Db)
      → d.next_token < 2 ^ 63
      → delete_token (itoa d.next_token) d' ≡ revoke (some (pos d.next_token)) d'
  unfolding delete_token revoke
  delete_token_lem d' small =
      rw (delete_token, parse_id, (parse_int-itoa d.next_token small).1) refl

module _ (hash : Text → Text) (now raw name : Text) (d : Db) where
  store_token_lem :
      ((store_token hash now name (some raw) d).0
        ≡ issued raw (create_api_token now name (hash raw) d).0)
      × ((store_token hash now name (some raw) d).1 ≡ (create_api_token now name (hash raw) d).1)
  unfolding store_token
  store_token_lem = (refl, refl)

revoke_lem :
    (id : ℕ) (d : Db)
    → ((revoke (some (pos id)) d).0
        ≡ (if (delete_api_token id d).0 then done tt else refusal 404 (text "token not found")))
      × ((revoke (some (pos id)) d).1 ≡ (delete_api_token id d).1)
unfolding revoke
revoke_lem id d = (refl, refl)

issued_lem :
    (raw : Text) (t : ApiToken)
    → issued raw (ok t)
      ≡ done (record {
        id = t.id;
        name = t.name;
        created_at = t.created_at;
        last_used_at = [];
        token = raw;
      })
unfolding issued
issued_lem raw t = refl

abbrev pub made : ℕ → (name token : Text) → ApiTokenResponse
made id name token = record {
  id = id;
  name = name;
  created_at = [];
  last_used_at = [];
  token = token;
}

-- A token whose trimmed name has 1 to 64 bytes and is new, and whose hash is new, is created with its
-- secret in the reply; a request that bears the secret is then accepted as that token's. Revoking
-- it by its id is confirmed, and from then on a request that bears the secret is not accepted. The
-- secret's random part is written in hex, and the ids have not passed 63 bits.
pub create_token_life :
    (hash : Text → Text) (c : Config) (r : Request) (now hex name : Text) (d : Db)
    → all is_hex hex ≡ true
    → is_empty (trim_space name) ≡ false
    → length (trim_space name) ≤ 64
    → has_token (trim_space name) (hash (secret hex)) d.tokens ≡ false
    → d.next_token < 2 ^ 63
    → let (reply, d') = create_token hash now (some hex) (some name) d in
      let (revoked, d'') = delete_token (itoa d.next_token) d' in
      (reply ≡ done (made d.next_token (trim_space name) (secret hex)))
      × (valid_api_credentials hash (token_by_hash d') c (bearing (secret hex) r)
          ≡ some (some d.next_token))
      × (revoked ≡ done tt)
      × (valid_api_credentials hash (token_by_hash d'') c (bearing (secret hex) r) ≡ none)
create_token_life hash c r now hex name d spelt given short free small =
    let (created, found, _, deleted, gone) =
      create_api_token_life now [] (trim_space name) (hash (secret hex)) d free in
    let solid = trim_space-secret hex spelt in
    let name' = trim_space name in
    let raw = secret hex in
    let d' = (create_api_token now name' (hash raw) d).1 in
    let (stored, stored_db) = store_token_lem hash now raw name' d in
    let (revoked, revoked_db) = revoke_lem d.next_token d' in
    rw
      (
        create_token_lem hash now hex name d given short,
        delete_token_lem hash now hex name d _ small,
        stored,
        stored_db,
        revoked,
        revoked_db,
      )
      (
        rw (created, issued_lem) refl,
        rw
            (
              valid_api_credentials-bearing hash (token_by_hash d') c r raw solid,
              token_by_hash_lem (hash raw) d' _ found,
            )
            refl,
        rw deleted refl,
        rw
            (
              valid_api_credentials-bearing hash
                  (token_by_hash (delete_api_token d.next_token d').1) c r raw solid,
              token_by_hash_lem (hash raw) (delete_api_token d.next_token d').1 _ gone,
            )
            refl,
      )
