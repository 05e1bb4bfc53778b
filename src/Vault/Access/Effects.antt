-- ===== src/Vault/Access/Effects.antt =====
-- What unlocking and locking leave behind, on every branch.
use lukscrypt.Prelude.{
  ℕ, Text, Bool, true, false, if◌then◌else◌, ◌∙◌, text, Option, none, some, ◌≡◌, refl, arith,
  text_beq_refl,
}
use lukscrypt.Sys.{Vault, Prog, give, Bound, ok, err}
use lukscrypt.Sys.Ensures.{Ensures, Ensures-if, Exit-cases}
use lukscrypt.Vault.Mounts.{mounted_in}
use lukscrypt.Vault.Access.{
  unlock_with, open_device, make_mount_point, mount_opened, lock_context, unmount_and_close,
  close_device,
}
use lukscrypt.Vault.Access.Held.{Held, nothing, next}

-- What the monitor of a vault's image, device and mount point shows at the end.
abbrev pub Leaves : Vault → {A : Type 0} → (Held → A → Type 0) → Held → Prog A → Type 0
Leaves v = Ensures (next v.path v.mapper_name v.mount_point)

-- With no error the device is open and mounted. With an error it is not left open.
abbrev pub IsAllOrNothing : Held → Option Text → Type 0
IsAllOrNothing h none = (h.device ≡ true) × (h.mounted ≡ true)
IsAllOrNothing h (some e) = (h.device ≡ false) × (h.early_close ≡ false)

module _ (v : Vault) (b : Bound) where
  mount_opened_lem :
      (h : Held)
      → h.device ≡ true
      → h.mounted ≡ false
      → h.early_close ≡ false
      → Leaves v IsAllOrNothing h (mount_opened b v)
  unfolding mount_opened
  mount_opened_lem h p q u =
      Exit-cases _ (λ out. ground (arith, text_beq_refl v.mount_point))
        λ out e r. ground (arith, text_beq_refl v.mapper_name)

  make_mount_point_lem :
      (h : Held)
      → h.device ≡ true
      → h.mounted ≡ false
      → h.early_close ≡ false
      → Leaves v IsAllOrNothing h (make_mount_point b v)
  unfolding make_mount_point
  make_mount_point_lem h p q u = elim [
    | none ↦ mount_opened_lem h p q u
    | some e ↦ λ r. ground (arith, text_beq_refl v.mapper_name)
  ]

  open_device_lem :
      (h : Held)
      → h.device ≡ false
      → h.mounted ≡ false
      → h.early_close ≡ false
      → (stdin : Text) (keyfile : Option ℕ)
      → Leaves v IsAllOrNothing h (open_device b v stdin keyfile)
  unfolding open_device
  open_device_lem h p q u stdin keyfile =
      Exit-cases _ (λ out. make_mount_point_lem _ (ground (arith, text_beq_refl v.mapper_name)) q u)
        λ out e. (ground arith, ground arith)

-- Whatever the system answers, unlocking ends with the device open and the filesystem mounted, or
-- with an error and the device not left open by this call: where mounting fails, a subprocess that
-- no cancelled context kills closes it (that clean-up is taken to do what it is asked).
pub unlock_with-IsAllOrNothing :
    (v : Vault) (b : Bound) (stdin : Text) (keyfile : Option ℕ)
    → Leaves v IsAllOrNothing nothing (unlock_with b v stdin keyfile)
unfolding unlock_with
unlock_with-IsAllOrNothing v b stdin keyfile = elim [
  | ok size ↦ (refl, refl)
  | err e ↦ λ mounts.
      Ensures-if _ _ (mounted_in v.mount_point mounts) _ _ _ (λ mounted. (refl, refl))
        λ unmounted. open_device_lem v b _ refl unmounted refl stdin keyfile
]

-- With no error the device is closed and not mounted; never was it closed while mounted.
abbrev pub IsLocked : Held → Option Text → Type 0
IsLocked h none = (h.device ≡ false) × (h.mounted ≡ false) × (h.early_close ≡ false)
IsLocked h (some e) = h.early_close ≡ false

module _ (v : Vault) (b : Bound) where
  close_device_lem :
      (h : Held)
      → h.mounted ≡ false
      → h.early_close ≡ false
      → Leaves v IsLocked h (close_device b v)
  unfolding close_device
  close_device_lem h q u =
      Exit-cases _ (λ out. ground (arith, text_beq_refl v.mapper_name)) λ out e. ground arith

  unmount_and_close_lem :
      (h : Held) → h.early_close ≡ false → Leaves v IsLocked h (unmount_and_close b v)
  unfolding unmount_and_close
  unmount_and_close_lem h u =
      Exit-cases _
        (λ out. close_device_lem _ (ground (arith, text_beq_refl v.mount_point)) (ground arith))
        λ out e. ground arith

  lock_context_lem :
      (mounts : Text) (unlocked : Bool) (h : Held)
      → h.mounted ≡ mounted_in v.mount_point mounts
      → h.early_close ≡ false
      → Leaves v IsLocked h (
          if unlocked
          then (if mounted_in v.mount_point mounts then unmount_and_close b v else close_device b v)
          else give (some (text "vault is already locked")))
  lock_context_lem mounts false h q u = u
  lock_context_lem mounts true h q u =
      Ensures-if _ _ (mounted_in v.mount_point mounts) _ _ _ (λ yes'. unmount_and_close_lem h u)
        λ unmounted. close_device_lem h (q ∙ unmounted) u

-- From any state in which no device was closed early, and whatever the system answers: after
-- locking without an error nothing is mounted and the device is closed; and with an error or
-- without, the device was not closed while the filesystem on it was mounted.
pub lock_context-IsLocked :
    (v : Vault) (b : Bound) (h : Held)
    → h.early_close ≡ false
    → Leaves v IsLocked h (lock_context b v)
unfolding lock_context
lock_context-IsLocked v b h u = λ mounts. elim [
  | ok size ↦ lock_context_lem v b mounts true _ refl u
  | err e ↦ lock_context_lem v b mounts (mounted_in v.mount_point mounts) _ refl u
]
