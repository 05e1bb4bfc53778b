-- ===== src/Vault/Access/Attempts.antt =====
-- How often looking at a vault and unlocking it try a credential.
use lukscrypt.Prelude.{ℕ, Text, Option, none, some, refl}
use lukscrypt.Sys.{Vault, Bound, ok, err}
use lukscrypt.Sys.Ensures.{Exit-cases}
use lukscrypt.Sys.Attempts.{AtMost, AtMost-bind, AtMost-if}
use lukscrypt.Vault.Mounts.{is_unlocked, status_in}
use lukscrypt.Vault.Disk.{disk_usage}
use lukscrypt.Vault.Access.{unlock_with}

pub is_unlocked-AtMost : (v : Vault) → AtMost 0 (is_unlocked v)
unfolding is_unlocked
is_unlocked-AtMost v = (refl, elim [ ok n ↦ tt | err e ↦ (refl, λ m. tt) ])

pub status_in-AtMost : (v : Vault) (mounts : Text) → AtMost 0 (status_in v mounts)
unfolding status_in
status_in-AtMost v mounts = (refl, λ n. tt)

pub disk_usage-AtMost : (mount_point : Text) → AtMost 0 (disk_usage mount_point)
unfolding disk_usage
disk_usage-AtMost mount_point = (refl, elim [ ok st ↦ tt | err e ↦ tt ])

pub unlock_with-AtMost :
    (b : Bound) (v : Vault) (stdin : Text) (keyfile : Option ℕ)
    → AtMost 1 (unlock_with b v stdin keyfile)
unfolding unlock_with
unlock_with-AtMost b v stdin keyfile = AtMost-bind 0 1 (is_unlocked v) _ (is_unlocked-AtMost v) λ u.
    AtMost-if 1 u _ _ tt (
      refl,
      Exit-cases _
          (λ out. (
            refl,
            elim [
              | none ↦ (refl, Exit-cases _ (λ out. tt) λ out e. (refl, λ r. tt))
              | some e ↦ (refl, λ r. tt)
            ],
          ))
          λ out e. tt,
    )
