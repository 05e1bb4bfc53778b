-- ===== src/Db/Listing.antt =====
-- internal/db/db.go: `ListVaults` and `ListAPITokens`, and the order of their rows.
pub mod Dated
use lukscrypt.Prelude.{
  Bool, true, false, ◌&&◌, ◌||◌, List, [], ◌∷◌, ltb, Eq, ◌==◌, nat_eq, Text, text_eq, order_by,
}
use lukscrypt.Sys.{Vault}
use lukscrypt.Db.{Db, ApiToken}

-- Texts compare by their bytes.
unfoldable pub text_ltb : Text → Text → Bool
text_ltb [] [] = false
text_ltb [] (y ∷ ys) = true
text_ltb (x ∷ xs) [] = false
text_ltb (x ∷ xs) (y ∷ ys) = let rest = text_ltb xs ys in ltb x y || (x == y && rest)

-- `ORDER BY created_at DESC`. It leaves open the order of two vaults with one time: they stay as in
-- `scan`, the order in which the engine reads the rows.
unfoldable pub vault_before : Vault → Vault → Bool
unfolding text_ltb
vault_before v w = text_ltb w.created_at v.created_at

unfoldable pub list_vaults : (scan : List Vault → List Vault) → Db → List Vault
unfolding order_by vault_before
list_vaults scan d = order_by vault_before (scan d.vaults)

-- `ORDER BY created_at DESC, id DESC`
unfoldable pub token_before : ApiToken → ApiToken → Bool
unfolding text_ltb
token_before t u =
    text_ltb u.created_at t.created_at || (u.created_at == t.created_at && ltb u.id t.id)

unfoldable pub list_api_tokens : Db → List ApiToken
unfolding order_by token_before
list_api_tokens d = order_by token_before d.tokens
