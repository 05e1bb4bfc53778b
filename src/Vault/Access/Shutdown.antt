-- ===== src/Vault/Access/Shutdown.antt =====
-- What is left open when all vaults are locked at shutdown.
pub mod Closing
pub mod Accounted
use lukscrypt.Prelude.{
  text, Text, Bool, true, false, Option, none, some, List, ◌≡◌, refl, ◌∙◌, arith, ◌||◌, ◌&&◌, not,
  text_beq, text_beq_refl, if◌then◌else◌, any,
}
use lukscrypt.Sys.{Vault, Call, Answer, give, ◌>>=◌, Bound, by_context, ok, err}
use lukscrypt.Sys.Argv.{Command}
use lukscrypt.Sys.Ensures.{Ensures, Ensures-bind, Ensures-if, Exit-cases}
use lukscrypt.Vault.Mounts.{mounted_in, mapper_path, is_unlocked, status_in}
use lukscrypt.Vault.Access.{
  lock_context, unmount_and_close, close_device, VaultLockError, lock_open, lock_if_unlocked,
}
use lukscrypt.Vault.Access.Held.{succeeded}

-- A monitor of one vault: what the last looks at its device and its mount point found, and whether it
-- was found or made closed and has not been opened since.
pub record Seen : Type 0 where
  pub node : Bool
  pub mounted : Bool
  pub down : Bool

abbrev pub unknown : Seen
unknown = record { node = true; mounted = true; down = false }

module _ (v : Vault) where
  abbrev pub after_exec : Command → Option Text → Seen → Seen
  after_exec (Command.luks_close name) e d = record d {
    down = d.down || (succeeded e && (text_beq name v.mapper_name && not d.mounted));
  }
  after_exec (Command.umount dir) e d = record d {
    mounted = d.mounted && not (succeeded e && text_beq dir v.mount_point);
  }
  after_exec (Command.luks_open k p name) e d = record d { down = false }
  after_exec (Command.mount dev dir) e d = record d { down = false }
  after_exec _ e d = d

  abbrev pub next : (c : Call) → Answer c → Seen → Seen
  next (Call.exec b c s) r d = after_exec c r.failed d
  next (Call.stat p) (ok n) d =
      if text_beq p (mapper_path v.mapper_name) then record d { node = true } else d
  next (Call.stat p) (err e) d =
      if text_beq p (mapper_path v.mapper_name) then record d { node = false } else d
  next Call.read_mounts m d = record d {
    mounted = mounted_in v.mount_point m;
    down = d.down || not (d.node || mounted_in v.mount_point m);
  }
  next _ r d = d

  -- A vault that does not look unlocked is down.
  abbrev LooksDown : Seen → Bool → Type 0
  LooksDown d true = Unit
  LooksDown d false = d.down ≡ true

  looked_lem :
      (mounted : Bool) (d : Seen)
      → d.node ≡ false
      → LooksDown (record d { mounted = mounted; down = d.down || not (d.node || mounted) }) mounted
  looked_lem true d h = tt
  looked_lem false d h = ground (arith, h)

  absent_lem :
      (d : Seen) (e : Text) → (next (Call.stat (mapper_path v.mapper_name)) (err e) d).node ≡ false
  absent_lem d e = rw (text_beq_refl (mapper_path v.mapper_name)) refl

  is_unlocked_lem : (d : Seen) → Ensures next LooksDown d (is_unlocked v)
  unfolding is_unlocked
  is_unlocked_lem d = elim [
    | ok n ↦ tt
    | err e ↦ λ m.
        looked_lem (mounted_in v.mount_point m)
          (next (Call.stat (mapper_path v.mapper_name)) (err e) d) (absent_lem d e)
  ]

  abbrev IsDown : Seen → Option Text → Type 0
  IsDown d none = d.down ≡ true
  IsDown d (some e) = Unit

  close_device_lem :
      (b : Bound) (d : Seen) → d.mounted ≡ false → Ensures next IsDown d (close_device b v)
  unfolding close_device
  close_device_lem b d m =
      Exit-cases _ (λ out. ground (arith, text_beq_refl v.mapper_name)) λ out e. tt

  unmount_and_close_lem : (b : Bound) (d : Seen) → Ensures next IsDown d (unmount_and_close b v)
  unfolding unmount_and_close
  unmount_and_close_lem b d =
      Exit-cases _ (λ out. close_device_lem b _ (ground (arith, text_beq_refl v.mount_point)))
        λ out e. tt

  lock_seen_lem :
      (b : Bound) (mounts : Text) (unlocked : Bool) (d : Seen)
      → d.mounted ≡ mounted_in v.mount_point mounts
      → Ensures next IsDown d (
          if unlocked
          then (if mounted_in v.mount_point mounts then unmount_and_close b v else close_device b v)
          else give (some (text "vault is already locked")))
  lock_seen_lem b mounts false d m = tt
  lock_seen_lem b mounts true d m =
      Ensures-if next IsDown (mounted_in v.mount_point mounts) (unmount_and_close b v)
        (close_device b v) d (λ _. unmount_and_close_lem b d)
        λ unmounted. close_device_lem b d (m ∙ unmounted)

  stat_mounted :
      (p : Text) (d : Seen) (b : Bool)
      → (if text_beq p (mapper_path v.mapper_name) then record d { node = b } else d).mounted
        ≡ d.mounted
  stat_mounted p d b = ground arith

  lock_context_lem : (b : Bound) (d : Seen) → Ensures next IsDown d (lock_context b v)
  unfolding lock_context status_in
  lock_context_lem b d = λ mounts. elim [
    | ok n ↦ lock_seen_lem b mounts true _ (stat_mounted (mapper_path v.mapper_name) _ true)
    | err e ↦
        lock_seen_lem b mounts (mounted_in v.mount_point mounts) _
          (stat_mounted (mapper_path v.mapper_name) _ false)
  ]

  -- Some failure names the vault.
  abbrev pub is_reported : List VaultLockError → Bool
  is_reported fs = any (λ f. text_beq f.vault v.name) fs

  abbrev pub IsAccounted : Seen → List VaultLockError → Type 0
  IsAccounted d fs = (d.down || is_reported fs) ≡ true

  lock_if_unlocked_lem : (d : Seen) → Ensures next IsAccounted d (lock_if_unlocked v)
  unfolding lock_if_unlocked lock_open
  lock_if_unlocked_lem d =
      Ensures-bind next LooksDown IsAccounted (is_unlocked v) _ d (is_unlocked_lem d) λ d'. elim [
        | false ↦ λ h. ground (arith, h)
        | true ↦ λ _.
            Ensures-bind next IsDown IsAccounted (lock_context by_context v) _ d'
              (lock_context_lem by_context d')
              λ d''. elim [
                | none ↦ λ h. ground (arith, h)
                | some e ↦ λ _. ground (arith, text_beq_refl v.name)
              ]
      ]
