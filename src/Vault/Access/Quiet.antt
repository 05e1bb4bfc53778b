-- ===== src/Vault/Access/Quiet.antt =====
-- The operations on a vault leave the database and the handler's state alone.
use lukscrypt.Prelude.{text, ℕ, Text, Option, none, some, refl}
use lukscrypt.Sys.{give, Vault, Bound, ok, err}
use lukscrypt.Sys.Ensures.{Exit-cases}
use lukscrypt.Sys.Quiet.{IsQuiet, IsQuiet-bind, IsQuiet-if}
use lukscrypt.Vault.Mounts.{is_unlocked, status_in}
use lukscrypt.Vault.Access.{
  unlock_with, close_device, unmount_and_close, lock_context, mount_device, mount_vault, delete,
}
use lukscrypt.Vault.Disk.{disk_usage}

pub is_unlocked-IsQuiet : (v : Vault) → IsQuiet (is_unlocked v)
unfolding is_unlocked
is_unlocked-IsQuiet v = (refl, elim [ ok n ↦ tt | err e ↦ (refl, λ m. tt) ])

pub status_in-IsQuiet : (v : Vault) (mounts : Text) → IsQuiet (status_in v mounts)
unfolding status_in
status_in-IsQuiet v mounts = (refl, λ n. tt)

pub unlock_with-IsQuiet :
    (b : Bound) (v : Vault) (stdin : Text) (keyfile : Option ℕ)
    → IsQuiet (unlock_with b v stdin keyfile)
unfolding unlock_with
unlock_with-IsQuiet b v stdin keyfile = IsQuiet-bind (is_unlocked v) _ (is_unlocked-IsQuiet v) λ u.
    IsQuiet-if u _ _ tt (
      refl,
      Exit-cases _
          (λ out. (
            refl,
            elim [
              | none ↦ (refl, Exit-cases _ (λ out. tt) λ out e. (refl, λ r. tt))
              | some e ↦ (refl, λ r. tt)
            ],
          ))
          λ out e. tt,
    )

close_device-IsQuiet : (b : Bound) (v : Vault) → IsQuiet (close_device b v)
unfolding close_device
close_device-IsQuiet b v = (refl, Exit-cases _ (λ out. tt) λ out e. tt)

unmount_and_close-IsQuiet : (b : Bound) (v : Vault) → IsQuiet (unmount_and_close b v)
unfolding unmount_and_close
unmount_and_close-IsQuiet b v = (refl, Exit-cases _ (λ out. close_device-IsQuiet b v) λ out e. tt)

pub lock_context-IsQuiet : (b : Bound) (v : Vault) → IsQuiet (lock_context b v)
unfolding lock_context
lock_context-IsQuiet b v = (
  refl,
  λ mounts. IsQuiet-bind (status_in v mounts) _ (status_in-IsQuiet v mounts) λ st.
      IsQuiet-if st.unlocked _ (give (some (text "vault is already locked")))
        (IsQuiet-if st.mounted (unmount_and_close b v) (close_device b v)
          (unmount_and_close-IsQuiet b v) (close_device-IsQuiet b v))
        tt,
)

mount_device-IsQuiet : (v : Vault) → IsQuiet (mount_device v)
unfolding mount_device
mount_device-IsQuiet v =
    (refl, elim [ none ↦ (refl, Exit-cases _ (λ out. tt) λ out e. tt) | some e ↦ tt ])

pub mount_vault-IsQuiet : (v : Vault) → IsQuiet (mount_vault v)
unfolding mount_vault
mount_vault-IsQuiet v = (
  refl,
  λ mounts. IsQuiet-bind (status_in v mounts) _ (status_in-IsQuiet v mounts) λ st.
      IsQuiet-if st.unlocked _ (give (some (text "vault is not unlocked")))
        (IsQuiet-if st.mounted (give (some (text "vault is already mounted"))) (mount_device v) tt
          (mount_device-IsQuiet v))
        tt,
)

pub delete-IsQuiet : (v : Vault) → IsQuiet (delete v)
unfolding delete
delete-IsQuiet v = IsQuiet-bind (is_unlocked v) _ (is_unlocked-IsQuiet v) λ u. IsQuiet-if u _ _ tt (
  refl,
  elim [
    | none ↦ (refl, elim [ none ↦ tt | some e ↦ IsQuiet-if e.not_exist _ _ tt tt ])
    | some e ↦ tt
  ],
)

pub disk_usage-IsQuiet : (mount_point : Text) → IsQuiet (disk_usage mount_point)
unfolding disk_usage
disk_usage-IsQuiet mount_point = (refl, elim [ ok st ↦ tt | err e ↦ tt ])
