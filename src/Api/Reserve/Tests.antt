-- ===== src/Api/Reserve/Tests.antt =====
-- Reservations and imports at concrete inputs.
use lukscrypt.Prelude.{none, ◌↔◌, Text, [], ◌∷◌, ◌≡◌, refl, text, text_beq}
use lukscrypt.Prelude.Int.{pos}
use lukscrypt.Sys.{Res, ok, err}
use lukscrypt.Sys.Ensures.{Ensures}
use lukscrypt.Vault.Header.{Luks2Header}
use lukscrypt.Api.Reserve.{Pending, NewVault, Dirs, reserve, check_new}
use lukscrypt.Api.Reserve.Accepted.{IsWellFormed, check_new-IsWellFormed}
use lukscrypt.Api.Reserve.Protocol.{asks, run, at_start}

abbrev dirs : Dirs
dirs = record {
  storage_dirs = text "/srv/vaults" ∷ [];
  mount_dirs = text "/mnt" ∷ [];
  max_size_gb = pos 100;
}

abbrev photos : NewVault
photos = record {
  name = text "photos";
  path = text "/srv/vaults";
  size_gb = pos 10;
  password = text "correct horse";
  mount_dir = text "/mnt";
}

second_refused :
    (run
      (asks (text "a") (text "/v/a.img") ∷ asks (text "a") (text "/w/a.img") ∷ [])
      at_start).pending
    ≡ record { names = text "a" ∷ []; paths = text "/v/a.img" ∷ [] }
unfolding run reserve text text_beq
second_refused = refl

abbrev busy : Pending
busy = record { names = text "music" ∷ []; paths = text "/srv/vaults/music.img" ∷ [] }

abbrev no_links : Text → Res Text
no_links p = ok p

abbrev no_json : Text → Res Luks2Header
no_json raw = err (text "unexpected end of JSON input")

check_new-IsWellFormed_example : (check_new dirs photos ≡ none) ↔ IsWellFormed dirs photos
check_new-IsWellFormed_example = check_new-IsWellFormed dirs photos
