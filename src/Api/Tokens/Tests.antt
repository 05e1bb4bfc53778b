-- ===== src/Api/Tokens/Tests.antt =====
-- The API tokens at concrete inputs.
use lukscrypt.Prelude.{Text, false, none, some, [], ◌∷◌, ◌≡◌, refl, arith, text, trim_space}
use lukscrypt.Prelude.Decimal.{itoa}
use lukscrypt.Db.{empty, has_token}
use lukscrypt.Api.Reply.{done, refusal}
use lukscrypt.Api.Auth.{Request, Config, valid_api_credentials}
use lukscrypt.Api.Tokens.{create_token, delete_token, token_by_hash}
use lukscrypt.Api.Tokens.Life.{secret, bearing, made, create_token_life}

abbrev config : Config
config = record {
  auth_user = text "admin";
  auth_pass = text "secret";
  trust_proxy = false;
  policy = record { max_age = 86400; idle = 3600 };
}

abbrev anonymous : Request
anonymous = record {
  method = text "GET";
  host = text "vault.local";
  origin = [];
  accept = [];
  authorization = [];
  basic = none;
  cookie = none;
  xff = [];
  remote_addr = text "1.2.3.4:5";
}

-- It stands for SHA-256.
abbrev hash : Text → Text
hash s = 0x68 ∷ s

name_tests :
    create_token hash (text "t0") (some (text "beef")) (some (text "  ")) empty
    ≡ (refusal 400 (text "name is required (max 64 chars)"), empty)
unfolding create_token text trim_space
name_tests = refl

trimmed : trim_space (text " ci ") ≡ text "ci"
unfolding trim_space text
trimmed = refl

create_token_life_example :
    let (reply, d') =
      create_token hash (text "t0") (some (text "beef")) (some (text " ci ")) empty in
    let (revoked, d'') = delete_token (itoa 1) d' in
    (reply ≡ done (made 1 (trim_space (text " ci ")) (secret (text "beef"))))
    × (valid_api_credentials hash
          (token_by_hash d')
          config
          (bearing (secret (text "beef")) anonymous)
        ≡ some (some 1))
    × (revoked ≡ done tt)
    × (valid_api_credentials hash
          (token_by_hash d'')
          config
          (bearing (secret (text "beef")) anonymous)
        ≡ none)
unfolding has_token text trim_space empty
create_token_life_example =
    create_token_life hash config anonymous (text "t0") (text "beef") (text " ci ") empty refl refl
      (omega arith) refl (omega arith)
