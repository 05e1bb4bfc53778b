-- ===== src/Vault/Resize/Steps.antt =====
-- The order of the steps of `grow`.
use lukscrypt.Prelude.{
  ◌<◌, ◌⊎◌, inl, inr, ℕ, ◌-◌, ◌*◌, ◌%◌, ◌^◌, Text, Bool, true, false, Option, none, some, ◌≡◌, refl,
  ap, arith, ◌||◌, not, leb, ltb,
}
use lukscrypt.Sys.{Vault, Call, Answer, ok, err}
use lukscrypt.Sys.Argv.{Command}
use lukscrypt.Sys.Ensures.{Ensures, Ensures-bind, Ensures-if, Ensures-mono, Exit-cases}
use lukscrypt.Vault.Access.Held.{succeeded}
use lukscrypt.Vault.Disk.{check_disk_space, required_bytes}
use lukscrypt.Vault.Resize.{
  append_file, grow_filesystem, grow_device, grow_image, grow_larger, grow_checked, grow,
}

-- A monitor of the three layers: which of them were grown, and whether one was touched before the
-- one below it was grown, or changed at all.
pub record Layers : Type 0 where
  pub image : Bool
  pub device : Bool
  pub filesystem : Bool
  pub out_of_order : Bool
  pub touched : Bool

abbrev pub untouched : Layers
untouched = record {
  image = false;
  device = false;
  filesystem = false;
  out_of_order = false;
  touched = false;
}

abbrev after_exec : Command → Option Text → Layers → Layers
after_exec (Command.fallocate n p) e l = record l { image = succeeded e || l.image; touched = true }
after_exec (Command.dd_append p s c) e l = record l {
  image = succeeded e || l.image;
  touched = true;
}
after_exec (Command.luks_resize k m) e l = record l {
  device = succeeded e || l.device;
  out_of_order = l.out_of_order || not l.image;
  touched = true;
}
after_exec (Command.resize2fs d) e l = record l {
  filesystem = succeeded e || l.filesystem;
  out_of_order = l.out_of_order || not l.device;
  touched = true;
}
after_exec _ e l = record l { touched = true }

abbrev pub next : (c : Call) → Answer c → Layers → Layers
next (Call.exec b c s) r l = after_exec c r.failed l
next _ r l = l

-- With no error all three layers were grown, each after the one below it.
abbrev pub IsGrown : Layers → Option Text → Type 0
IsGrown l none =
    (l.image ≡ true) × (l.device ≡ true) × (l.filesystem ≡ true) × (l.out_of_order ≡ false)
IsGrown l (some e) = l.out_of_order ≡ false

module _ (v : Vault) (size_gb : ℕ) (key : Text) where
  grow_filesystem_lem :
      (l : Layers)
      → l.image ≡ true
      → l.device ≡ true
      → l.out_of_order ≡ false
      → Ensures next IsGrown l (grow_filesystem v)
  unfolding grow_filesystem
  grow_filesystem_lem l p q o = Exit-cases _ (λ out. ground arith) λ out e. ground arith

  grow_device_lem :
      (l : Layers)
      → l.image ≡ true
      → l.out_of_order ≡ false
      → Ensures next IsGrown l (grow_device v key)
  unfolding grow_device
  grow_device_lem l p o =
      Exit-cases _ (λ out. grow_filesystem_lem _ p refl (ground arith)) λ out e. ground arith

  append_file_lem :
      (l : Layers)
      → l.out_of_order ≡ false
      → Ensures next
          (λ l' e. (l'.out_of_order ≡ false) × (succeeded e ≡ true → l'.image ≡ true))
          l
          (append_file v.path (size_gb - v.size_gb))
  unfolding append_file
  append_file_lem l o = elim [
    | err e ↦ (o, λ h. cc)
    | ok size ↦ Exit-cases _ (λ out. (o, λ h. refl)) λ out e. (o, λ h. cc)
  ]

  grow_image_lem :
      (l : Layers) → l.out_of_order ≡ false → Ensures next IsGrown l (grow_image v size_gb key)
  unfolding grow_image
  grow_image_lem l o =
      Exit-cases _ (λ out. grow_device_lem _ refl o)
        λ out e.
          Ensures-bind next _ _ (append_file v.path (size_gb - v.size_gb)) _ _ (append_file_lem _ o)
            λ l'. elim [ none ↦ λ k. grow_device_lem l' (k.1 refl) k.0 | some e' ↦ λ k. k.0 ]

  check_disk_space_lem :
      Ensures next (λ l _. l ≡ untouched) untouched (check_disk_space v.path (size_gb - v.size_gb))
  unfolding check_disk_space
  check_disk_space_lem = elim [
    | err e ↦ refl
    | ok st ↦
        Ensures-if next _
          (ltb (st.bavail * st.bsize % 2 ^ 64) (required_bytes (size_gb - v.size_gb))) _ _ _
          (λ _. refl) λ _. refl
  ]

  grow_larger_lem : Ensures next IsGrown untouched (grow_larger v size_gb key)
  unfolding grow_larger
  grow_larger_lem =
      Ensures-bind next _ _ (check_disk_space v.path (size_gb - v.size_gb)) _ _ check_disk_space_lem
        λ l. elim [
          | none ↦ λ e. grow_image_lem l (ap (λ (m : Layers). m.out_of_order) e)
          | some e' ↦ λ e. ap (λ (m : Layers). m.out_of_order) e
        ]

-- And a size that is not larger leaves every layer alone, and is an error.
abbrev pub IsGrownFrom : (old new : ℕ) → Layers → Option Text → Type 0
IsGrownFrom old new l e =
    IsGrown l e × ((old < new) ⊎ ((l.touched ≡ false) × (succeeded e ≡ false)))

grow_checked_lem :
    (v : Vault) (size_gb : ℕ) (key : Text)
    → Ensures next (IsGrownFrom v.size_gb size_gb) untouched (grow_checked v size_gb key)
unfolding grow_checked
grow_checked_lem v size_gb key =
    Ensures-if next _ (leb size_gb v.size_gb) _ _ _ (λ no'. (refl, inr (refl, refl)))
      λ larger.
        Ensures-mono next IsGrown _ (grow_larger v size_gb key) _ (grow_larger_lem v size_gb key)
          λ l e k. (k, inl (ground arith))

-- Growing to a size that is not larger runs no subprocess and fails. Otherwise, whatever the system
-- answers, no layer is resized before the one below it (image, device, filesystem) was, and with no
-- error all three were.
pub grow-IsGrown :
    (v : Vault) (size_gb : ℕ) (key : Text)
    → Ensures next (IsGrownFrom v.size_gb size_gb) untouched (grow v size_gb key)
unfolding grow
grow-IsGrown v size_gb key = grow_checked_lem v size_gb key
