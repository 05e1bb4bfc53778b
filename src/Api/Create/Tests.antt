-- ===== src/Api/Create/Tests.antt =====
-- Requests for creations at concrete inputs.
use lukscrypt.Prelude.{
  ℕ, Text, ◌⊎◌, text_eq, none, some, List, [], ◌∷◌, ◌≡◌, refl, text, text_beq, split,
}
use lukscrypt.Prelude.Dict.{insert}
use lukscrypt.Prelude.FilePath.{join, clean, resolve, resolve_all, join_parts}
use lukscrypt.Vault.Create.{img_path}
use lukscrypt.Api.Input.{is_valid_vault_name, allowed_dir}
use lukscrypt.Prelude.Int.{pos}
use lukscrypt.Api.Reply.{done, refusal}
use lukscrypt.Api.Reserve.{
  NewVault, Dirs, check_new, reserve, release_pending, in_flight, has_key, delete_key,
}
use lukscrypt.Api.Create.{no_creations, image_of, create_vault, launched, finish}
use lukscrypt.Api.Create.Claims.{IsFree, claims-exclusive}
use lukscrypt.Sys.{Res, err, give}
use lukscrypt.Vault.Header.{Luks2Header}
use lukscrypt.Api.Reserve.{import_locked}
use lukscrypt.Api.Create.Account.{IsAccounted, create_vault-IsAccounted}
use lukscrypt.Api.Create.Exclusive.{Event, requested, finished, step, run}

abbrev dirs : Dirs
dirs = record {
  storage_dirs = text "/srv/vaults" ∷ [];
  mount_dirs = text "/mnt" ∷ [];
  max_size_gb = pos 100;
}

abbrev photos : NewVault
photos = record {
  name = text "photos";
  path = text "/srv/vaults";
  size_gb = pos 10;
  password = text "correct horse";
  mount_dir = text "/mnt";
}

abbrev music : NewVault
music = record photos { name = text "music" }

-- Two creations, of which the first has ended, and one that found no randomness.
abbrev history : List Event
history =
    requested 5 (some (text "0a")) (some photos)
    ∷ requested 6 (some (text "0b")) (some music)
    ∷ requested 7 none (some (record photos { name = text "films" }))
    ∷ finished 1
    ∷ []

again_test :
    (create_vault dirs 9 (some (text "0c")) (some music) (run dirs history no_creations)).0
    ≡ refusal 409 (text "vault creation already in progress for this name")
unfolding run step create_vault check_new reserve release_pending in_flight has_key delete_key
    image_of img_path launched finish insert no_creations is_valid_vault_name allowed_dir join clean
    split resolve_all resolve join_parts text text_beq
again_test = refl

abbrev no_json : Text → Res Luks2Header
no_json raw = err (text "no JSON")

accepted_test :
    (create_vault dirs 9 (some (text "0c")) (some photos) (run dirs history no_creations)).0
    ≡ done (text "0c")
unfolding run step create_vault check_new reserve release_pending in_flight has_key delete_key
    image_of img_path launched finish insert no_creations is_valid_vault_name allowed_dir join clean
    split resolve_all resolve join_parts text text_beq
accepted_test = refl

create_vault-IsAccounted_example :
    IsAccounted dirs 9
      (some (text "0c"))
      (some photos)
      (run dirs history no_creations)
      (create_vault dirs 9 (some (text "0c")) (some photos) (run dirs history no_creations))
create_vault-IsAccounted_example =
    create_vault-IsAccounted dirs 9 (some (text "0c")) (some photos) (run dirs history no_creations)

claims-exclusive_example :
    let s = run dirs history no_creations in
    let reply = (create_vault dirs 9 (some (text "0c")) (some photos) s).0 in
    (((status : ℕ) × (e : Text) × (reply ≡ refusal status e))
      ⊎ IsFree (text "photos") (image_of photos) s.running)
    × (((e : Text) × (import_locked no_json
              (text "music")
              (text "/srv/vaults/music.img")
              (text "/mnt")
              s.pending
            ≡ give (refusal 409 e)))
        ⊎ IsFree (text "music") (text "/srv/vaults/music.img") s.running)
claims-exclusive_example =
    claims-exclusive dirs history 9 (some (text "0c")) photos no_json (text "music")
      (text "/srv/vaults/music.img") (text "/mnt")
