-- ===== src/Db/Open/Tests.antt =====
-- A file of an older version, with no table of tokens, whose second table cannot be made.
use lukscrypt.Prelude.{Text, text, Option, none, some, [], ◌∷◌, ◌≡◌, refl}
use lukscrypt.Sys.{err}
use lukscrypt.Db.{row}
use lukscrypt.Db.Open.Kept.{IsOpened, open_db-IsOpened}
use lukscrypt.Db.Open.{File, Statement, create_tokens, open_db, migrate}

abbrev older : File
older = record {
  vaults = some (
    row 4 (text "photos") (text "/v/photos.img") 10 (text "/mnt/photos") (text "photos")
          (text "2026-01-02 10:00:00")
        ∷ [],
    5,
  );
  tokens = none;
}

abbrev disk_full : Statement → Option Text
disk_full create_tokens = some (text "database or disk is full")
disk_full _ = none

failure_test :
    open_db disk_full none older ≡ (err (text "migrate: database or disk is full"), older)
unfolding open_db migrate text
failure_test = refl

open_db-IsOpened_example :
    IsOpened
      (record { vaults = some ([], 7); tokens = none })
      (open_db (λ s. none) none (record { vaults = some ([], 7); tokens = none }))
open_db-IsOpened_example =
    open_db-IsOpened (λ s. none) none (record { vaults = some ([], 7); tokens = none })
