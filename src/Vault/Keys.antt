-- ===== src/Vault/Keys.antt =====
-- internal/vault/keys.go: adding and removing keyslots. A slot below zero lets cryptsetup choose.
pub mod Slots
pub mod TempFile
pub mod Attempts
use lukscrypt.Prelude.{
  ℕ, ◌+◌, ◌*◌, Text, Bool, false, Option, none, some, List, [], ◌∷◌, ◌++◌, text, trim_space, leb,
  not, ◌||◌, text_eq, nat_eq, ◌==◌, if◌then◌else◌, length, replicate,
}
use lukscrypt.Prelude.Int.{ℤ, pos, negsuc}
use lukscrypt.Prelude.Decimal.{itoa_ℤ}
use lukscrypt.Sys.{
  Vault, Prog, give, ask, ◌>>=◌, ◌>>◌, ok, err, always, exec, create_temp, chmod, write_temp,
  close_temp, write_file, remove,
}
use lukscrypt.Sys.Argv.{luks_add_key, luks_add_key_file, luks_kill_slot}
use lukscrypt.Vault.Header.{KeySlot, LuksDetails}

abbrev pub max_key_slot : ℕ
max_key_slot = 31

abbrev pub max_key_file_size : ℕ
max_key_file_size = 1024 * 1024

abbrev pub min_key_file_size : ℕ
min_key_file_size = 8

abbrev slot_option : ℤ → Option ℕ
slot_option (pos n) = some n
slot_option (negsuc n) = none

abbrev pub newline : ℕ
newline = 0x0a

-- The passphrases on cryptsetup's standard input.
unfoldable pub add_key_stdin : Text → Text → Text
add_key_stdin old_password new_password = old_password ++ (newline ∷ (new_password ++ newline ∷ []))

unfoldable pub add_key : Vault → Text → Text → ℤ → Prog (Option Text)
unfolding add_key_stdin
add_key v old_password new_password slot = do
  r ← ask (
      exec always (luks_add_key v.path (slot_option slot))
        (add_key_stdin old_password new_password))
  elim r.failed [
    | none ↦ give none
    | some _ ↦ give (some (text "luksAddKey: " ++ trim_space r.out))
  ]

-- The deferred clean-up: the key is overwritten before the file goes.
wipe : Text → Text → Option Text → Prog (Option Text)
wipe tmp new_key result = do
  ask (write_file tmp (replicate (length new_key) 0) 0o600)
  ask (remove tmp)
  give result

add_key_command : Vault → (existing new_key tmp : Text) → ℤ → Prog (Option Text)
add_key_command v existing new_key tmp slot = do
  r ← ask (exec always (luks_add_key_file (length existing) (slot_option slot) v.path tmp) existing)
  elim r.failed [
    | none ↦ wipe tmp new_key none
    | some _ ↦ wipe tmp new_key (some (text "luksAddKey: " ++ trim_space r.out))
  ]

close_key : Vault → (existing new_key tmp : Text) → ℤ → Prog (Option Text)
close_key v existing new_key tmp slot = do
  e ← ask (close_temp tmp)
  elim e [
    | none ↦ add_key_command v existing new_key tmp slot
    | some e ↦ wipe tmp new_key (some (text "write temp key file: " ++ e))
  ]

write_key : Vault → (existing new_key tmp : Text) → ℤ → Prog (Option Text)
write_key v existing new_key tmp slot = do
  e ← ask (write_temp tmp new_key)
  elim e [
    | none ↦ close_key v existing new_key tmp slot
    | some e ↦ do ask (close_temp tmp); wipe tmp new_key (some (text "write temp key file: " ++ e))
  ]

secure_key : Vault → (existing new_key tmp : Text) → ℤ → Prog (Option Text)
secure_key v existing new_key tmp slot = do
  e ← ask (chmod tmp 0o600)
  elim e [
    | none ↦ write_key v existing new_key tmp slot
    | some e ↦ do ask (close_temp tmp); wipe tmp new_key (some (text "secure temp key file: " ++ e))
  ]

create_key : Vault → (existing new_key : Text) → ℤ → Prog (Option Text)
create_key v existing new_key slot = do
  created ← ask create_temp
  elim created [
    | err e ↦ give (some (text "create temp key file: " ++ e))
    | ok tmp ↦ secure_key v existing new_key tmp slot
  ]

unfoldable pub add_key_file : Vault → (existing new_key : Text) → ℤ → Prog (Option Text)
unfolding create_key secure_key write_key close_key add_key_command wipe
add_key_file v existing new_key slot = create_key v existing new_key slot

kill : Option ℕ → Vault → Text → ℕ → Prog (Option Text)
kill keyfile v credential slot = do
  r ← ask (exec always (luks_kill_slot keyfile v.path slot) credential)
  elim r.failed [
    | none ↦ give none
    | some _ ↦ give (some (text "luksKillSlot: " ++ trim_space r.out))
  ]

unfoldable pub kill_slot : Vault → Text → ℕ → Prog (Option Text)
unfolding kill
kill_slot v remaining_password slot = kill none v remaining_password slot

unfoldable pub kill_slot_key_file : Vault → Text → ℕ → Prog (Option Text)
unfolding kill
kill_slot_key_file v key slot = kill (some (length key)) v key slot

abbrev pub same_index : ℤ → ℤ → Bool
same_index (pos a) (pos b) = a == b
same_index (negsuc a) (negsuc b) = a == b
same_index _ _ = false

unfoldable pub is_valid : KeySlot → Bool
is_valid ks = ks.status == text "valid" || ks.status == text "enabled"

-- The loop's two variables.
pub record Tally : Type 0 where
  pub valid : ℕ
  pub found : Bool

unfoldable pub tally : ℤ → Tally → List KeySlot → Tally
unfolding is_valid
tally slot t [] = t
tally slot t (ks ∷ more) =
    tally slot
      (if is_valid ks
        then record { valid = t.valid + 1; found = same_index ks.index slot || t.found }
        else t)
      more

abbrev judge : ℤ → Tally → Option Text
judge slot t =
    if not t.found
    then some (text "keyslot " ++ (itoa_ℤ slot ++ text " is not a valid keyslot"))
    else if leb t.valid 1
    then some (
        text
          "cannot remove the last valid keyslot — the vault would become permanently inaccessible")
    else none

-- The error of `ValidateKillSlot`, unless it is nil.
unfoldable pub validate_kill_slot : LuksDetails → ℤ → Option Text
unfolding tally
validate_kill_slot d slot =
    judge slot (tally slot (record { valid = 0; found = false }) d.key_slots)
