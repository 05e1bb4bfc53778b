-- ===== src/Db/Tests.antt =====
-- The tables at concrete inputs: tests of the statements, and an instance of each theorem.
use lukscrypt.Prelude.{arith, text, text_beq, some, [], ◌∷◌, ◌≡◌, refl, order_by}
use lukscrypt.Sys.{Vault}
use lukscrypt.Db.{Db, ApiToken, row, token_row, has_name, get_vault_by_name, update_vault_size}
use lukscrypt.Db.Listing.{text_ltb, token_before, list_vaults, list_api_tokens}
use lukscrypt.Db.Listing.Dated.{IsNewestFirst, AreNewestFirst, listings-AreDated}
use mathlib.Core.List.{Perm}
use mathlib.Core.List.Perm
use lukscrypt.Db.Vaults.{AreVaults, deleted, resized, change, change-AreVaults}

abbrev photos : Vault
photos = row 2 (text "photos") (text "/v/photos.img") 10 (text "/mnt/photos") (text "photos") []

abbrev papers : Vault
papers = row 1 (text "papers") (text "/v/papers.img") 2 (text "/mnt/papers") (text "papers") []

abbrev two_vaults : Db
two_vaults = record { vaults = photos ∷ papers ∷ []; next_vault = 5; tokens = []; next_token = 1 }

unique_test :
    get_vault_by_name (text "papers") (change (resized 1 9) two_vaults)
    ≡ some (record papers { size_gb = 9 })
unfolding get_vault_by_name update_vault_size text text_beq
unique_test = refl

change-AreVaults_example :
    AreVaults (change (deleted 2) two_vaults).next_vault (change (deleted 2) two_vaults).vaults
unfolding has_name text text_beq
change-AreVaults_example =
    change-AreVaults (deleted 2) two_vaults (omega arith, refl, (omega arith, refl, tt))

abbrev deploy : ApiToken
deploy = token_row 1 (text "deploy") (text "h1") (text "2026-01-02 10:00:00") []

-- A token that is created in the same second stands first, in whatever order the rows are.
abbrev backup : ApiToken
backup = token_row 2 (text "backup") (text "h2") (text "2026-01-02 10:00:00") []

abbrev two_tokens : Db
two_tokens = record two_vaults { tokens = deploy ∷ backup ∷ []; next_token = 3 }

listing_test : list_api_tokens two_tokens ≡ backup ∷ deploy ∷ []
unfolding list_api_tokens order_by token_before text_ltb text text_beq
listing_test = refl

listings-AreDated_example :
    Perm (list_vaults (λ vs. vs) two_tokens) two_tokens.vaults
    × IsNewestFirst (list_vaults (λ vs. vs) two_tokens)
    × Perm (list_api_tokens two_tokens) two_tokens.tokens
    × AreNewestFirst (list_api_tokens two_tokens)
listings-AreDated_example = listings-AreDated (λ vs. vs) (λ vs. Perm.rfl) two_tokens
