-- ===== src/Vault/Keys/Attempts.antt =====
-- How often adding and removing a keyslot tries a credential.
use lukscrypt.Prelude.{ℕ, Text, none, some, refl}
use lukscrypt.Prelude.Int.{ℤ}
use lukscrypt.Sys.{Vault, ok, err}
use lukscrypt.Sys.Ensures.{Exit-cases}
use lukscrypt.Sys.Attempts.{AtMost}
use lukscrypt.Vault.Keys.{
  add_key, add_key_file, wipe, add_key_command, close_key, write_key, secure_key, create_key,
  kill_slot, kill_slot_key_file,
}

pub add_key-AtMost : (v : Vault) (p q : Text) (slot : ℤ) → AtMost 1 (add_key v p q slot)
unfolding add_key
add_key-AtMost v p q slot = (refl, Exit-cases _ (λ out. tt) λ out e. tt)

pub kill_slot-AtMost : (v : Vault) (p : Text) (slot : ℕ) → AtMost 1 (kill_slot v p slot)
unfolding kill_slot
kill_slot-AtMost v p slot = (refl, Exit-cases _ (λ out. tt) λ out e. tt)

pub kill_slot_key_file-AtMost :
    (v : Vault) (key : Text) (slot : ℕ) → AtMost 1 (kill_slot_key_file v key slot)
unfolding kill_slot_key_file
kill_slot_key_file-AtMost v key slot = (refl, Exit-cases _ (λ out. tt) λ out e. tt)

module _ (v : Vault) (existing new_key : Text) (slot : ℤ) where
  add_key_command-AtMost : (tmp : Text) → AtMost 1 (add_key_command v existing new_key tmp slot)
  unfolding add_key_command wipe
  add_key_command-AtMost tmp = (
    refl,
    Exit-cases _ (λ out. (refl, λ r. (refl, λ r. tt))) λ out e. (refl, λ r. (refl, λ r. tt)),
  )

  write_key-AtMost : (tmp : Text) → AtMost 1 (write_key v existing new_key tmp slot)
  unfolding write_key close_key wipe
  write_key-AtMost tmp = (
    refl,
    elim [
      | none ↦
          (refl, elim [ none ↦ add_key_command-AtMost tmp | some e ↦ (refl, λ r. (refl, λ r. tt)) ])
      | some e ↦ (refl, λ r. (refl, λ r. (refl, λ r. tt)))
    ],
  )

  pub add_key_file-AtMost : AtMost 1 (add_key_file v existing new_key slot)
  unfolding add_key_file create_key secure_key wipe
  add_key_file-AtMost = (
    refl,
    elim [
      | err e ↦ tt
      | ok tmp ↦ (
        refl,
        elim [ none ↦ write_key-AtMost tmp | some e ↦ (refl, λ r. (refl, λ r. (refl, λ r. tt))) ],
      )
    ],
  )
