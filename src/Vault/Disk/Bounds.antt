-- ===== src/Vault/Disk/Bounds.antt =====
-- Sizes in bytes that fit their machine integers.
use lukscrypt.Prelude.{
  ℕ, ◌*◌, ◌%◌, ◌^◌, ◌≤◌, ◌<◌, Text, Option, none, some, ◌≡◌, ◌↔◌, ◌⊎◌, true, ltb, arith,
}
use lukscrypt.Prelude.Int.{pos}
use lukscrypt.Sys.{Call, Answer, ok, err}
use lukscrypt.Sys.Ensures.{Ensures, Ensures-if}
use lukscrypt.Vault.Disk.{int64, image_bytes, required_bytes, check_disk_space}

-- A monitor: the bytes that the filesystem reported as available, as a natural number.
abbrev pub next : (c : Call) → Answer c → Option ℕ → Option ℕ
next (Call.statfs p) (ok st) s = some (st.bavail * st.bsize)
next _ r s = s

-- No error only where that much is available; an error where it is not, where the figure does not
-- fit 64 bits, or where nothing was reported.
abbrev pub IsChecked : ℕ → Option ℕ → Option Text → Type 0
IsChecked size_gb (some available) none = size_gb * 2 ^ 30 ≤ available
IsChecked size_gb (some available) (some e) = (available < size_gb * 2 ^ 30) ⊎ (2 ^ 64 ≤ available)
IsChecked size_gb none none = ⊥
IsChecked size_gb none (some e) = Unit

short :
    (size_gb available : ℕ)
    → size_gb < 2 ^ 34
    → ltb (available % 2 ^ 64) (size_gb * 2 ^ 30 % 2 ^ 64) ≡ true
    → (available < size_gb * 2 ^ 30) ⊎ (2 ^ 64 ≤ available)
short size_gb available h less = ground arith

-- Whatever the system answers, for a size below 2^34 GB the check succeeds only where the filesystem
-- reports at least as many free bytes as the size has, and fails only where it reports fewer, or
-- 2^64 bytes or more, which overflow the product of blocks and block size, or nothing.
pub check_disk_space-IsChecked :
    (path : Text) (size_gb : ℕ)
    → size_gb < 2 ^ 34
    → Ensures next (IsChecked size_gb) none (check_disk_space path size_gb)
unfolding check_disk_space required_bytes
check_disk_space-IsChecked path size_gb h = elim [
  | err e ↦ tt
  | ok st ↦
      Ensures-if next (IsChecked size_gb)
        (ltb (st.bavail * st.bsize % 2 ^ 64) (size_gb * 2 ^ 30 % 2 ^ 64)) _ _ _
        (λ less. short size_gb (st.bavail * st.bsize) h less) λ enough. ground arith
]

pos_iff : (a b : ℕ) → (pos a ≡ pos b) ↔ (a ≡ b)
pos_iff a b = ground arith

-- The image's size in bytes is the product of the size and 2^30 exactly for sizes below 2^33 GB.
pub image_bytes_iff :
    (size_gb : ℕ) → (image_bytes size_gb ≡ pos (size_gb * 2 ^ 30)) ↔ (size_gb < 2 ^ 33)
unfolding image_bytes int64
image_bytes_iff size_gb = ground (arith, pos_iff (size_gb * 2 ^ 30 % 2 ^ 64) (size_gb * 2 ^ 30))
