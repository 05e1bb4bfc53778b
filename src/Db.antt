-- ===== src/Db.antt =====
-- internal/db/db.go: the two tables and the statements on them. The SQLite engine is not part of the
-- repository: a table is the list of its rows, newest first, and a statement does what its SQL text
-- says, with the constraints of the schema in `migrate`. That the connection itself fails is not
-- modelled here. A query without a row is `none` (`sql.ErrNoRows`).
pub mod Vaults
pub mod Tokens
pub mod Listing
pub mod Open
mod Tests
use lukscrypt.Prelude.{
  ℕ, suc, ◌+◌, ap, Bool, not, ◌||◌, Option, none, some, List, [], ◌∷◌, ◌++◌, map, arith,
  if◌then◌else◌, Eq, ◌==◌, nat_eq, any, keep, Text, text, text_beq, text_eq,
}
use lukscrypt.Sys.{Vault, Res, ok, err}

pub record ApiToken : Type 0 where
  pub id : ℕ
  pub name : Text
  pub token_hash : Text
  pub created_at : Text
  pub last_used_at : Text

-- AUTOINCREMENT: an id is never given twice.
pub record Db : Type 0 where
  pub vaults : List Vault
  pub next_vault : ℕ
  pub tokens : List ApiToken
  pub next_token : ℕ

unfoldable pub empty : Db
empty = record { vaults = []; next_vault = 1; tokens = []; next_token = 1 }

abbrev pub unique_failed : Text → Res Vault
unique_failed column = err (text "constraint failed: UNIQUE constraint failed: " ++ column)

unfoldable pub has_name : Text → List Vault → Bool
has_name name vs = any (λ v. text_beq v.name name) vs

abbrev pub row : ℕ → (name path : Text) → ℕ → (mount_point mapper_name created_at : Text) → Vault
row id name path size_gb mount_point mapper_name created_at = record {
  id = id;
  name = name;
  path = path;
  size_gb = size_gb;
  mount_point = mount_point;
  mapper_name = mapper_name;
  created_at = created_at;
}

-- The returned record has no creation time.
unfoldable pub create_vault :
    (now : Text) → (name path : Text) → ℕ → (mount_point mapper_name : Text) → Db → Res Vault × Db
create_vault now name path size_gb mount_point mapper_name d =
    if has_name name d.vaults then (unique_failed (text "vaults.name"), d) else (
      ok (row d.next_vault name path size_gb mount_point mapper_name []),
      record d {
        vaults = row d.next_vault name path size_gb mount_point mapper_name now ∷ d.vaults;
        next_vault = suc d.next_vault;
      },
    )

find_vault : (Vault → Bool) → List Vault → Option Vault
find_vault p [] = none
find_vault p (v ∷ vs) = if p v then some v else find_vault p vs

unfoldable pub get_vault : ℕ → Db → Option Vault
unfolding find_vault
get_vault id d = find_vault (λ v. v.id == id) d.vaults

unfoldable pub get_vault_by_name : Text → Db → Option Vault
unfolding find_vault
get_vault_by_name name d = find_vault (λ v. text_beq v.name name) d.vaults

unfoldable pub delete_vault : ℕ → Db → Db
delete_vault id d = record d { vaults = keep (λ v. not (v.id == id)) d.vaults }

resize_row : ℕ → ℕ → Vault → Vault
resize_row id size_gb v = if v.id == id then record v { size_gb = size_gb } else v

unfoldable pub update_vault_size : ℕ → ℕ → Db → Db
unfolding resize_row
update_vault_size id size_gb d = record d { vaults = map (resize_row id size_gb) d.vaults }

unfoldable pub has_token : (name hash : Text) → List ApiToken → Bool
has_token name hash ts = any (λ t. text_beq t.name name || text_beq t.token_hash hash) ts

abbrev pub token_row : ℕ → (name hash created_at last_used_at : Text) → ApiToken
token_row id name hash created_at last_used_at = record {
  id = id;
  name = name;
  token_hash = hash;
  created_at = created_at;
  last_used_at = last_used_at;
}

unfoldable pub create_api_token : (now name hash : Text) → Db → Res ApiToken × Db
create_api_token now name hash d =
    if has_token name hash d.tokens
    then (err (text "constraint failed: UNIQUE constraint failed: api_tokens"), d)
    else (
      ok (token_row d.next_token name hash [] []),
      record d {
        tokens = token_row d.next_token name hash now [] ∷ d.tokens;
        next_token = suc d.next_token;
      },
    )

find_token : Text → List ApiToken → Option ApiToken
find_token hash [] = none
find_token hash (t ∷ ts) = if text_beq t.token_hash hash then some t else find_token hash ts

unfoldable pub get_api_token_by_hash : Text → Db → Option ApiToken
unfolding find_token
get_api_token_by_hash hash d = find_token hash d.tokens

-- Whether a row was deleted, and the database after.
unfoldable pub delete_api_token : ℕ → Db → Bool × Db
delete_api_token id d =
    (any (λ t. t.id == id) d.tokens, record d { tokens = keep (λ t. not (t.id == id)) d.tokens })

touch_row : (now : Text) → ℕ → ApiToken → ApiToken
touch_row now id t = if t.id == id then record t { last_used_at = now } else t

unfoldable pub touch_api_token : (now : Text) → ℕ → Db → Db
unfolding touch_row
touch_api_token now id d = record d { tokens = map (touch_row now id) d.tokens }
