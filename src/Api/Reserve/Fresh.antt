-- ===== src/Api/Reserve/Fresh.antt =====
-- What an import registers.
use lukscrypt.Prelude.{
  ◌⊎◌, ℕ, ◌+◌, ◌*◌, ◌^◌, ◌≤◌, ◌<◌, Text, Option, none, some, List, [], ◌≡◌, ◌≢◌, refl, text_beq,
  if◌then◌else◌, All, Any, text_eq,
}
use lukscrypt.Sys.{Vault, Call, Answer, Res, ok, give}
use lukscrypt.Sys.Ensures.{Ensures}
use lukscrypt.Vault.Header.{Luks2Header}
use lukscrypt.Api.Input.Laws.{IsVaultName, LiesIn}
use lukscrypt.Prelude.FilePath.{clean}
use lukscrypt.Api.Reserve.Accepted.{IsUnreserved}
use lukscrypt.Api.Reply.{refusal}
use lukscrypt.Api.Reserve.{Pending, in_flight, proceed, Dirs, import_locked}

-- A monitor: the vaults that were listed, the size that was read of the image, and the name, image
-- and size of the record that was to be inserted.
pub record Seen : Type 0 where
  pub listed : List Vault
  pub size : ℕ
  pub inserted : Option (Text × (Text × ℕ))

abbrev pub unseen : Seen
unseen = record { listed = []; size = 0; inserted = none }

module _ (path : Text) where
  abbrev pub next : (c : Call) → Answer c → Seen → Seen
  next Call.list_vaults (ok vs) s = record s { listed = vs }
  next (Call.stat p) (ok n) s = record s { size = if text_beq p path then n else s.size }
  next (Call.insert_vault n p g m d) r s = record s { inserted = some (n, (p, g)) }
  next _ r s = s

abbrev pub IsNew : (name path : Text) → List Vault → Type 0
IsNew name path vs = All (λ v. (v.name ≢ name) × (v.path ≢ path)) vs

-- The record that was to be inserted, if any, has the name and the image asked for; neither was
-- reserved or registered; and its size is the image's in GiB, rounded up.
abbrev pub IsFresh : (name path : Text) → Pending → Seen → Option (Text × (Text × ℕ)) → Type 0
IsFresh name path p s none = Unit
IsFresh name path p s (some (n, (q, g))) =
    (n ≡ name)
    × (q ≡ path)
    × IsUnreserved n q p
    × IsNew n q s.listed
    × (s.size ≤ g * 2 ^ 30)
    × (g * 2 ^ 30 < s.size + 2 ^ 30)

module _ (unmarshal : Text → Res Luks2Header) (name path mount_dir : Text) (p : Pending) where
  abbrev Good : {A : Type 0} → Seen → A → Type 0
  Good s _ = IsFresh name path p s s.inserted

-- Nothing is inserted, or the request passed its checks and the record is fresh.
abbrev pub IsImported :
    (eval_symlinks : Text → Res Text) (d : Dirs) (name path mount_dir : Text)
    → Pending
    → Seen
    → Type 0
IsImported eval_symlinks d name path mount_dir p s =
    let cleaned = clean path in
    (s.inserted ≡ none)
    ⊎ (IsVaultName name
        × Any (LiesIn eval_symlinks cleaned) d.storage_dirs
        × Any (λ m. m ≡ mount_dir) d.mount_dirs
        × IsFresh name cleaned p s s.inserted)

-- An import of a name or an image that is reserved is refused at once.
pub import_locked-taken :
    (unmarshal : Text → Res Luks2Header) (name path mount_dir : Text) (p : Pending) (e : Text)
    → in_flight name path p ≡ some e
    → import_locked unmarshal name path mount_dir p ≡ give (refusal 409 e)
unfolding import_locked proceed
import_locked-taken unmarshal name path mount_dir p e h = rw h refl
