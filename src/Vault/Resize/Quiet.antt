-- ===== src/Vault/Resize/Quiet.antt =====
-- Growing leaves the database and the handler's state alone.
use lukscrypt.Prelude.{ℕ, ◌-◌, ◌*◌, ◌%◌, ◌^◌, Text, none, some, refl, leb, ltb}
use lukscrypt.Sys.{Vault, ok, err}
use lukscrypt.Sys.Ensures.{Exit-cases}
use lukscrypt.Sys.Quiet.{IsQuiet, IsQuiet-bind, IsQuiet-if}
use lukscrypt.Vault.Disk.{check_disk_space, required_bytes}
use lukscrypt.Vault.Resize.{
  append_file, grow_filesystem, grow_device, grow_image, grow_larger, grow_checked, grow,
}

append_file-IsQuiet : (path : Text) (n : ℕ) → IsQuiet (append_file path n)
unfolding append_file
append_file-IsQuiet path n =
    (refl, elim [ ok size ↦ (refl, Exit-cases _ (λ out. tt) λ out e. tt) | err e ↦ tt ])

check_disk_space-IsQuiet : (path : Text) (n : ℕ) → IsQuiet (check_disk_space path n)
unfolding check_disk_space
check_disk_space-IsQuiet path n = (
  refl,
  elim [
    | err e ↦ tt
    | ok st ↦ IsQuiet-if (ltb (st.bavail * st.bsize % 2 ^ 64) (required_bytes n)) _ _ tt tt
  ],
)

module _ (v : Vault) (size_gb : ℕ) (key : Text) where
  grow_device-IsQuiet : IsQuiet (grow_device v key)
  unfolding grow_device grow_filesystem
  grow_device-IsQuiet =
      (refl, Exit-cases _ (λ out. (refl, Exit-cases _ (λ out. tt) λ out e. tt)) λ out e. tt)

  grow_image-IsQuiet : IsQuiet (grow_image v size_gb key)
  unfolding grow_image
  grow_image-IsQuiet = (
    refl,
    Exit-cases _ (λ out. grow_device-IsQuiet)
        λ out e.
          IsQuiet-bind (append_file v.path (size_gb - v.size_gb)) _ (append_file-IsQuiet _ _)
            elim [ none ↦ grow_device-IsQuiet | some e' ↦ tt ],
  )

  grow_larger-IsQuiet : IsQuiet (grow_larger v size_gb key)
  unfolding grow_larger
  grow_larger-IsQuiet =
      IsQuiet-bind (check_disk_space v.path (size_gb - v.size_gb)) _ (check_disk_space-IsQuiet _ _)
        elim [ none ↦ grow_image-IsQuiet | some e ↦ tt ]

  pub grow-IsQuiet : IsQuiet (grow v size_gb key)
  unfolding grow grow_checked
  grow-IsQuiet =
      IsQuiet-if (leb size_gb v.size_gb) _ (grow_larger v size_gb key) tt grow_larger-IsQuiet
