-- ===== src/Vault/Disk.antt =====
-- internal/vault/diskspace_linux.go, diskspace_other.go, diskusage_linux.go and the byte counts of
-- vault.go and resize.go. Go computes these in 64-bit integers, whose wrap-around is written out.
-- The one float, a figure of an error message, is rounded to tenths in whole numbers.
pub mod Bounds
use lukscrypt.Prelude.{
  ℕ, ◌+◌, ◌-◌, ◌*◌, ◌/◌, ◌%◌, ◌^◌, Text, Option, none, some, ◌++◌, text, ltb, if◌then◌else◌,
}
use lukscrypt.Prelude.Int.{ℤ, pos, negsuc}
use lukscrypt.Prelude.Decimal.{itoa}
use lukscrypt.Sys.{Prog, give, ask, ◌>>=◌, ok, err, statfs}

-- A product as an `int64`.
unfoldable pub int64 : ℕ → ℤ
int64 n = let m = n % 2 ^ 64 in if ltb m (2 ^ 63) then pos m else negsuc (2 ^ 64 - 1 - m)

-- `int64(sizeGB) * 1024 * 1024 * 1024`
unfoldable pub image_bytes : ℕ → ℤ
unfolding int64
image_bytes size_gb = int64 (size_gb * 2 ^ 30)

-- `uint64(sizeGB) * 1024 * 1024 * 1024`
unfoldable pub required_bytes : ℕ → ℕ
required_bytes size_gb = size_gb * 2 ^ 30 % 2 ^ 64

-- The error of `checkDiskSpace`, unless it is nil.
unfoldable pub check_disk_space : Text → ℕ → Prog (Option Text)
check_disk_space path size_gb = do
  fs ← ask (statfs path)
  elim fs [
    | err e ↦ give (some (text "stat filesystem at " ++ (path ++ (text ": " ++ e))))
    | ok st ↦
        let available = st.bavail * st.bsize % 2 ^ 64 in
        let tenths = (available * 10 + 2 ^ 29) / 2 ^ 30 in
        if ltb available (required_bytes size_gb)
        then give (
            some (
              text "insufficient space: need "
              ++ (itoa size_gb
                  ++ (text " GB, only "
                      ++ (itoa (tenths / 10)
                          ++ (text "." ++ (itoa (tenths % 10) ++ text " GB available")))))))
        else give none
  ]

-- `DiskUsage`: used and total bytes, both 0 if the filesystem cannot be read.
unfoldable pub disk_usage : Text → Prog (ℤ × ℤ)
unfolding int64
disk_usage mount_point = do
  fs ← ask (statfs mount_point)
  elim fs [
    | err _ ↦ give (pos 0, pos 0)
    | ok st ↦ give (
      int64 ((st.blocks % 2 ^ 64 + 2 ^ 64 - st.bfree % 2 ^ 64) * st.bsize),
      int64 (st.blocks * st.bsize),
    )
  ]
