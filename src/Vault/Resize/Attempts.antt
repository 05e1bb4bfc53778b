-- ===== src/Vault/Resize/Attempts.antt =====
-- How often growing tries a credential.
use lukscrypt.Prelude.{ℕ, ◌-◌, ◌*◌, ◌%◌, ◌^◌, Text, none, some, refl, leb, ltb}
use lukscrypt.Sys.{Vault, ok, err}
use lukscrypt.Sys.Ensures.{Exit-cases}
use lukscrypt.Sys.Attempts.{AtMost, AtMost-bind, AtMost-if}
use lukscrypt.Vault.Disk.{check_disk_space, required_bytes}
use lukscrypt.Vault.Resize.{
  append_file, grow_filesystem, grow_device, grow_image, grow_larger, grow_checked, grow,
}

append_file-AtMost : (path : Text) (n : ℕ) → AtMost 0 (append_file path n)
unfolding append_file
append_file-AtMost path n =
    (refl, elim [ ok size ↦ (refl, Exit-cases _ (λ out. tt) λ out e. tt) | err e ↦ tt ])

check_disk_space-AtMost : (path : Text) (n : ℕ) → AtMost 0 (check_disk_space path n)
unfolding check_disk_space
check_disk_space-AtMost path n = (
  refl,
  elim [
    | err e ↦ tt
    | ok st ↦ AtMost-if 0 (ltb (st.bavail * st.bsize % 2 ^ 64) (required_bytes n)) _ _ tt tt
  ],
)

module _ (v : Vault) (size_gb : ℕ) (key : Text) where
  grow_device-AtMost : AtMost 1 (grow_device v key)
  unfolding grow_device grow_filesystem
  grow_device-AtMost =
      (refl, Exit-cases _ (λ out. (refl, Exit-cases _ (λ out. tt) λ out e. tt)) λ out e. tt)

  grow_image-AtMost : AtMost 1 (grow_image v size_gb key)
  unfolding grow_image
  grow_image-AtMost = (
    refl,
    Exit-cases _ (λ out. grow_device-AtMost)
        λ out e.
          AtMost-bind 0 1 (append_file v.path (size_gb - v.size_gb)) _ (append_file-AtMost _ _)
            elim [ none ↦ grow_device-AtMost | some e' ↦ tt ],
  )

  grow_larger-AtMost : AtMost 1 (grow_larger v size_gb key)
  unfolding grow_larger
  grow_larger-AtMost =
      AtMost-bind 0 1 (check_disk_space v.path (size_gb - v.size_gb)) _
        (check_disk_space-AtMost _ _) elim [ none ↦ grow_image-AtMost | some e ↦ tt ]

  pub grow-AtMost : AtMost 1 (grow v size_gb key)
  unfolding grow grow_checked
  grow-AtMost =
      AtMost-if 1 (leb size_gb v.size_gb) _ (grow_larger v size_gb key) tt grow_larger-AtMost
