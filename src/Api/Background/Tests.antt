-- ===== src/Api/Background/Tests.antt =====
-- The start with two vaults, one of which is open.
use lukscrypt.Prelude.{Text, text, text_beq, Bool, [], ◌∷◌, ◌≡◌}
use lukscrypt.Sys.{Vault, ok}
use lukscrypt.Db.{row}
use lukscrypt.Api.BruteForce.Tests.{willing}
use lukscrypt.Api.Background.{start_windows}
use lukscrypt.Api.Background.Startup.{windows_of, tracked, start_windows_lem}

abbrev photos : Vault
photos = row 2 (text "photos") (text "/v/photos.img") 10 (text "/mnt/photos") (text "photos") []

abbrev papers : Vault
papers = row 1 (text "papers") (text "/v/papers.img") 2 (text "/mnt/papers") (text "papers") []

abbrev node : Text → Bool
node p = text_beq p (text "/dev/mapper/papers")

start_windows_lem_example :
    tracked node [] (ok (photos ∷ papers ∷ [])) willing start_windows tt []
    ≡ windows_of node [] (ok (photos ∷ papers ∷ [])) willing (ok (photos ∷ papers ∷ []))
start_windows_lem_example = start_windows_lem node [] (ok (photos ∷ papers ∷ [])) willing tt
