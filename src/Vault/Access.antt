-- ===== src/Vault/Access.antt =====
-- internal/vault/vault.go: unlocking, locking, mounting and deleting a vault. A function returns
-- its error, `none` for nil.
pub mod Held
pub mod Effects
pub mod Shutdown
pub mod Quiet
pub mod Attempts
use lukscrypt.Prelude.{Text, Option, none, some, List, [], ◌∷◌, ◌++◌, ℕ}
use lukscrypt.Prelude.{text, trim_space, length, if◌then◌else◌}
use lukscrypt.Sys.{
  Vault, Prog, give, ask, ◌>>=◌, ◌>>◌, ok, err, Bound, by_context, always, unread, exec, mkdir_all,
  remove, read_mounts, list_vaults,
}
use lukscrypt.Sys.Argv.{luks_open, luks_close, mount, umount}
use lukscrypt.Vault.Mounts.{mapper_path, is_unlocked, status_in}

-- The subprocess mounts the device, and its failure closes it again.
mount_opened : Bound → Vault → Prog (Option Text)
mount_opened b v = do
  r ← ask (exec b (mount (mapper_path v.mapper_name) v.mount_point) [])
  elim r.failed [
    | none ↦ give none
    | some _ ↦ do
      ask (exec unread (luks_close v.mapper_name) [])
      give (some (text "mount: " ++ trim_space r.out))
  ]

make_mount_point : Bound → Vault → Prog (Option Text)
unfolding mount_opened
make_mount_point b v = do
  e ← ask (mkdir_all v.mount_point 0o750)
  elim e [
    | none ↦ mount_opened b v
    | some e ↦ do
      ask (exec unread (luks_close v.mapper_name) [])
      give (some (text "create mount point: " ++ e))
  ]

open_device : Bound → Vault → Text → Option ℕ → Prog (Option Text)
unfolding make_mount_point
open_device b v stdin keyfile = do
  r ← ask (exec b (luks_open keyfile v.path v.mapper_name) stdin)
  elim r.failed [
    | none ↦ make_mount_point b v
    | some _ ↦ give (some (text "luksOpen: " ++ trim_space r.out))
  ]

-- `keyfile` is the size given to `--keyfile-size`, for a credential that is a keyfile.
unfoldable pub unlock_with : Bound → Vault → Text → Option ℕ → Prog (Option Text)
unfolding open_device is_unlocked
unlock_with b v stdin keyfile = do
  unlocked ← is_unlocked v
  if unlocked then give (some (text "vault is already unlocked")) else open_device b v stdin keyfile

unfoldable pub unlock_context : Bound → Vault → Text → Prog (Option Text)
unfolding unlock_with
unlock_context b v password = unlock_with b v password none

unfoldable pub unlock_key_file_context : Bound → Vault → Text → Prog (Option Text)
unfolding unlock_with
unlock_key_file_context b v key = unlock_with b v key (some (length key))

close_device : Bound → Vault → Prog (Option Text)
close_device b v = do
  r ← ask (exec b (luks_close v.mapper_name) [])
  elim r.failed [ none ↦ give none | some _ ↦ give (some (text "luksClose: " ++ trim_space r.out)) ]

unmount_and_close : Bound → Vault → Prog (Option Text)
unfolding close_device
unmount_and_close b v = do
  r ← ask (exec b (umount v.mount_point) [])
  elim r.failed [
    | none ↦ close_device b v
    | some _ ↦ give (some (text "umount: " ++ trim_space r.out))
  ]

unfoldable pub lock_context : Bound → Vault → Prog (Option Text)
unfolding unmount_and_close status_in
lock_context b v = do
  mounts ← ask read_mounts
  st ← status_in v mounts
  if st.unlocked
      then (if st.mounted then unmount_and_close b v else close_device b v)
      else give (some (text "vault is already locked"))

mount_device : Vault → Prog (Option Text)
mount_device v = do
  e ← ask (mkdir_all v.mount_point 0o750)
  elim e [
    | some e ↦ give (some (text "create mount point: " ++ e))
    | none ↦ do
      r ← ask (exec always (mount (mapper_path v.mapper_name) v.mount_point) [])
      elim r.failed [ none ↦ give none | some _ ↦ give (some (text "mount: " ++ trim_space r.out)) ]
  ]

unfoldable pub mount_vault : Vault → Prog (Option Text)
unfolding mount_device status_in
mount_vault v = do
  mounts ← ask read_mounts
  st ← status_in v mounts
  if st.unlocked
      then (if st.mounted then give (some (text "vault is already mounted")) else mount_device v)
      else give (some (text "vault is not unlocked"))

-- The directory goes after the image; that it is not there is no error.
remove_mount_point : Vault → Prog (Option Text)
remove_mount_point v = do
  e ← ask (remove v.mount_point)
  elim e [
    | none ↦ give none
    | some e ↦
        if e.not_exist then give none else give (some (text "remove mount point: " ++ e.message))
  ]

remove_image : Vault → Prog (Option Text)
unfolding remove_mount_point
remove_image v = do
  e ← ask (remove v.path)
  elim e [ none ↦ remove_mount_point v | some e ↦ give (some e.message) ]

unfoldable pub delete : Vault → Prog (Option Text)
unfolding remove_image is_unlocked
delete v = do
  unlocked ← is_unlocked v
  if unlocked then give (some (text "vault must be locked before deletion")) else remove_image v

pub record VaultLockError : Type 0 where
  pub vault : Text
  pub error : Text

lock_open : Vault → Prog (List VaultLockError)
unfolding lock_context
lock_open v = do
  e ← lock_context by_context v
  elim e [ none ↦ give [] | some e ↦ give (record { vault = v.name; error = e } ∷ []) ]

-- One round of the shutdown loop: the failure that it adds, if any.
lock_if_unlocked : Vault → Prog (List VaultLockError)
unfolding lock_open is_unlocked
lock_if_unlocked v = do unlocked ← is_unlocked v; if unlocked then lock_open v else give []

unfoldable pub lock_each : List Vault → Prog (List VaultLockError)
unfolding lock_if_unlocked
lock_each [] = give []
lock_each (v ∷ vs) = do here ← lock_if_unlocked v; later ← lock_each vs; give (here ++ later)

unfoldable pub lock_all_unlocked : Prog (List VaultLockError)
unfolding lock_each
lock_all_unlocked = do
  vaults ← ask list_vaults
  elim vaults [
    | err e ↦ give (record { vault = text "(list vaults)"; error = e } ∷ [])
    | ok vs ↦ lock_each vs
  ]
