-- ===== src/Vault/Resize.antt =====
-- internal/vault/resize.go: growing a vault's image, device and filesystem. Sizes are whole GB that
-- the caller has found positive.
pub mod Steps
pub mod Append
pub mod Quiet
pub mod Attempts
use lukscrypt.Prelude.{
  ℕ, ◌-◌, ◌*◌, ◌/◌, ◌^◌, Text, Option, none, some, [], ◌++◌, text, trim_space, leb, length,
  if◌then◌else◌,
}
use lukscrypt.Prelude.Decimal.{itoa}
use lukscrypt.Sys.{Vault, Prog, give, ask, ◌>>=◌, ok, err, by_context, exec, stat}
use lukscrypt.Sys.Argv.{fallocate, dd_append, luks_resize, resize2fs}
use lukscrypt.Vault.Mounts.{mapper_path}
use lukscrypt.Vault.Disk.{image_bytes, check_disk_space}

-- dd writes zeros from the image's last whole MiB on.
unfoldable pub append_file : Text → ℕ → Prog (Option Text)
append_file path delta_gb = do
  info ← ask (stat path)
  elim info [
    | err e ↦ give (some e)
    | ok size ↦ do
      r ← ask (exec by_context (dd_append path (size / 2 ^ 20) (delta_gb * 1024)) [])
      elim r.failed [ none ↦ give none | some _ ↦ give (some (trim_space r.out)) ]
  ]

grow_filesystem : Vault → Prog (Option Text)
grow_filesystem v = do
  r ← ask (exec by_context (resize2fs (mapper_path v.mapper_name)) [])
  elim r.failed [ none ↦ give none | some _ ↦ give (some (text "resize2fs: " ++ trim_space r.out)) ]

grow_device : Vault → Text → Prog (Option Text)
grow_device v key = do
  r ← ask (exec by_context (luks_resize (length key) v.mapper_name) key)
  elim r.failed [
    | none ↦ grow_filesystem v
    | some _ ↦ give (some (text "cryptsetup resize: " ++ trim_space r.out))
  ]

grow_image : Vault → ℕ → Text → Prog (Option Text)
grow_image v size_gb key = do
  r ← ask (exec by_context (fallocate (image_bytes size_gb) v.path) [])
  elim r.failed [
    | none ↦ grow_device v key
    | some _ ↦ do
      e ← append_file v.path (size_gb - v.size_gb)
      elim e [
        | none ↦ grow_device v key
        | some e ↦ give (some (text "extend image (" ++ (trim_space r.out ++ (text "): " ++ e))))
      ]
  ]

grow_larger : Vault → ℕ → Text → Prog (Option Text)
grow_larger v size_gb key = do
  e ← check_disk_space v.path (size_gb - v.size_gb)
  elim e [ none ↦ grow_image v size_gb key | some e ↦ give (some e) ]

grow_checked : Vault → ℕ → Text → Prog (Option Text)
grow_checked v size_gb key =
    if leb size_gb v.size_gb
    then give (
        some (
          text "new size must be greater than the current size of "
          ++ (itoa v.size_gb ++ text " GB")))
    else grow_larger v size_gb key

unfoldable pub grow : Vault → ℕ → Text → Prog (Option Text)
unfolding grow_checked grow_larger grow_image append_file grow_device grow_filesystem
    check_disk_space
grow v size_gb key = grow_checked v size_gb key
