-- ===== src/Vault/Tests.antt =====
-- The vault package at concrete inputs: tests of the definitions, and an instance of each theorem.
use lukscrypt.Prelude.{
  ◌||◌, inl, map, ◌⊎◌, Text, true, false, none, some, [], ◌∷◌, ◌≡◌, refl, arith, text, text_beq,
  contains, has_prefix, any,
}
use lukscrypt.Prelude.Int.{pos, negsuc}
use lukscrypt.Prelude.Decimal.{itoa_ℤ}
use lukscrypt.Sys.{Vault, by_context, always}
use lukscrypt.Sys.Ensures.{Ensures}
use lukscrypt.Vault.Mounts.{mounted_in, proc_mounts_escape}
use lukscrypt.Vault.Mounts.Fields.{fields, inner, mounted_in-fields}
use lukscrypt.Vault.Access.{unlock_with, lock_context, lock_each}
use lukscrypt.Vault.Access.Shutdown
use lukscrypt.Vault.Access.Shutdown.{unknown, is_reported}
use lukscrypt.Vault.Access.Shutdown.Accounted.{lock_each-IsAccounted}
use lukscrypt.Vault.Access.Held
use lukscrypt.Vault.Access.Held.{nothing}
use lukscrypt.Vault.Access.Effects.{
  Leaves, IsAllOrNothing, IsLocked, unlock_with-IsAllOrNothing, lock_context-IsLocked,
}
use lukscrypt.Vault.Disk.{check_disk_space}
use lukscrypt.Vault.Disk.Bounds
use lukscrypt.Vault.Disk.Bounds.{IsChecked, check_disk_space-IsChecked}
use lukscrypt.Vault.Create.{create, img_path}
use lukscrypt.Vault.Create.Holds.{IsSettled}
use lukscrypt.Vault.Create.Cleanup.{create-IsSettled}
use lukscrypt.Vault.Header.{KeySlot, LuksDetails, parse_luks1, Luks2Header, number, parse_luks2}
use lukscrypt.Vault.Keys.{add_key_file, validate_kill_slot}
use lukscrypt.Vault.Keys.TempFile
use lukscrypt.Vault.Keys.TempFile.{no_file, IsWiped, add_key_file-IsWiped}
use lukscrypt.Vault.Resize.{append_file, grow}
use lukscrypt.Vault.Resize.Steps
use lukscrypt.Vault.Resize.Steps.{untouched, IsGrownFrom, grow-IsGrown}
use lukscrypt.Vault.Resize.Append
use lukscrypt.Vault.Resize.Append.{no_region, IsAppended, append_file-IsAppended}

abbrev photos : Vault
photos = record {
  id = 1;
  name = text "photos";
  path = text "/vaults/photos.img";
  size_gb = 10;
  mount_point = text "/mnt/my photos";
  mapper_name = text "photos";
  created_at = [];
}

abbrev mounts : Text
mounts = text "/dev/dm-0 /mnt/my\\040photos ext4 rw 0 0\n/dev/sda1 / ext4 rw 0 0\n"

mounted_in_tests :
    (mounted_in (text "/mnt/my photos") mounts ≡ true)
    × (mounted_in (text "/mnt/my") mounts ≡ false)
    × (mounted_in (text "/") mounts ≡ true)
unfolding mounted_in proc_mounts_escape text contains
mounted_in_tests = (refl, refl, refl)

unlock_with-IsAllOrNothing_example :
    Leaves photos IsAllOrNothing nothing (unlock_with by_context photos (text "correct horse") none)
unlock_with-IsAllOrNothing_example =
    unlock_with-IsAllOrNothing photos by_context (text "correct horse") none

lock_context-IsLocked_example : Leaves photos IsLocked nothing (lock_context always photos)
lock_context-IsLocked_example = lock_context-IsLocked photos always nothing refl

lock_each-IsAccounted_example :
    Ensures
      (Shutdown.next photos)
      (λ d fs. (d.down || is_reported photos fs) ≡ true)
      unknown
      (lock_each (photos ∷ []))
lock_each-IsAccounted_example = lock_each-IsAccounted photos (photos ∷ []) (inl refl)

create-IsSettled_example :
    Ensures
      (Held.next (img_path (text "/vaults") (text "photos")) (text "photos") (text "/mnt/photos"))
      (λ h _. IsSettled h)
      nothing
      (create (text "photos") (text "/vaults") 10 (text "correct horse") (text "/mnt/photos"))
create-IsSettled_example =
    create-IsSettled (text "photos") (text "/vaults") 10 (text "correct horse") (text "/mnt/photos")

mounted_in-fields_example :
    mounted_in (text "/mnt/my photos") mounts
    ≡ any (text_beq (proc_mounts_escape (text "/mnt/my photos"))) (inner (fields mounts))
mounted_in-fields_example = mounted_in-fields (text "/mnt/my photos") mounts

abbrev slot_one : KeySlot
slot_one = record { index = pos 0; type = text "argon2id"; status = text "valid" }

abbrev slot_two : KeySlot
slot_two = record { index = pos 3; type = text "pbkdf2"; status = text "enabled" }

abbrev two_slots : LuksDetails
two_slots = record {
  version = text "2";
  cipher = [];
  hash = [];
  key_size_bits = pos 512;
  uuid = [];
  key_slots = slot_one ∷ slot_two ∷ [];
}

validate_tests :
    (validate_kill_slot two_slots (pos 3) ≡ none)
    × (validate_kill_slot two_slots (pos 1) ≡ some (text "keyslot 1 is not a valid keyslot"))
unfolding validate_kill_slot text text_beq itoa_ℤ
validate_tests = (refl, refl)

add_key_file-IsWiped_example :
    Ensures
      (TempFile.next (text "0123456789"))
      (λ f _. IsWiped f)
      no_file
      (add_key_file photos (text "old-pass") (text "0123456789") (negsuc 0))
add_key_file-IsWiped_example =
    add_key_file-IsWiped photos (text "old-pass") (text "0123456789") (negsuc 0)

grow-IsGrown_example :
    Ensures Steps.next (IsGrownFrom 10 20) untouched (grow photos 20 (text "correct horse"))
grow-IsGrown_example = grow-IsGrown photos 20 (text "correct horse")

append_file-IsAppended_example :
    Ensures Append.next
      (λ r _. (r.written ≡ false) ⊎ IsAppended 10 r)
      no_region
      (append_file (text "/vaults/photos.img") 10)
append_file-IsAppended_example = append_file-IsAppended (text "/vaults/photos.img") 10

luks1_dump : Text
luks1_dump =
    text
      "LUKS header information\n\nVersion:       \t1\nCipher name:   \taes\nCipher mode:   \txts-plain64\nHash spec:     \tsha256\nMK bits:       \t512\nUUID:          \tabc-1\n\nKey Slot 0: ENABLED\n\tIterations: 1\nKey Slot 1: DISABLED\n"

luks1_test : parse_luks1 (record two_slots { key_slots = [] }) luks1_dump ≡ record {
  version = text "2";
  cipher = text "aes-xts-plain64";
  hash = text "sha256";
  key_size_bits = pos 512;
  uuid = [];
  key_slots =
      record { index = pos 0; type = text "pbkdf2"; status = text "enabled" }
      ∷ record { index = pos 1; type = text "pbkdf2"; status = text "disabled" }
      ∷ [];
}
unfolding luks1_dump parse_luks1 text text_beq has_prefix
luks1_test = refl

check_disk_space-IsChecked_example :
    Ensures Bounds.next (IsChecked 10) none (check_disk_space (text "/vaults") 10)
check_disk_space-IsChecked_example = check_disk_space-IsChecked (text "/vaults") 10 (omega arith)

abbrev two_keyslots : Luks2Header
two_keyslots = record {
  keyslots =
      (text "10", record { key_size = number (pos 64); kdf_type = text "pbkdf2" })
      ∷ (text "2", record { key_size = number (pos 64); kdf_type = text "argon2id" })
      ∷ [];
  digests = (text "0", text "sha256") ∷ [];
  segments = (text "0", text "aes-xts-plain64") ∷ [];
}

abbrev blank : LuksDetails
blank = record two_slots { key_size_bits = pos 0; key_slots = [] }

luks2_test : map (λ k. k.index) (parse_luks2 blank two_keyslots).key_slots ≡ pos 2 ∷ pos 10 ∷ []
unfolding parse_luks2 text
luks2_test = refl
