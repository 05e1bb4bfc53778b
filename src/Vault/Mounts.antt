-- ===== src/Vault/Mounts.antt =====
-- internal/vault/vault.go: what the system says of a vault's device and mount point. `IsUnlocked`,
-- `IsMounted`, `StatusIn`, `mountedIn` and `procMountsEscape`.
pub mod Fields
use lukscrypt.Prelude.{
  ℕ, Text, Bool, true, [], ◌∷◌, ◌++◌, text, contains, nat_eq, ◌==◌, if◌then◌else◌,
}
use lukscrypt.Sys.{Vault, Prog, give, ask, ◌>>=◌, ok, err, stat, read_mounts}

-- The replacer's table: backslash, space, tab and newline as octal escapes.
escape_byte : ℕ → Text
escape_byte c =
    if c == 0x5c
    then 0x5c ∷ b'1' ∷ b'3' ∷ b'4' ∷ []
    else if c == b' '
    then 0x5c ∷ b'0' ∷ b'4' ∷ b'0' ∷ []
    else if c == 0x09
    then 0x5c ∷ b'0' ∷ b'1' ∷ b'1' ∷ []
    else if c == 0x0a
    then 0x5c ∷ b'0' ∷ b'1' ∷ b'2' ∷ []
    else c ∷ []

-- One pass: what a byte is replaced by is not read again.
unfoldable pub proc_mounts_escape : Text → Text
unfolding escape_byte
proc_mounts_escape [] = []
proc_mounts_escape (c ∷ s) = escape_byte c ++ proc_mounts_escape s

unfoldable pub mounted_in : Text → Text → Bool
mounted_in mount_point mounts =
    contains mounts (b' ' ∷ (proc_mounts_escape mount_point ++ b' ' ∷ []))

unfoldable pub mapper_path : Text → Text
mapper_path name = text "/dev/mapper/" ++ name

unfoldable pub is_mounted : Vault → Prog Bool
is_mounted v = do mounts ← ask read_mounts; give (mounted_in v.mount_point mounts)

unfoldable pub is_unlocked : Vault → Prog Bool
unfolding is_mounted
is_unlocked v = do
  node ← ask (stat (mapper_path v.mapper_name))
  elim node [ ok _ ↦ give true | err _ ↦ is_mounted v ]

-- The two results of `StatusIn`.
pub record Status : Type 0 where
  pub unlocked : Bool
  pub mounted : Bool

unfoldable pub status_in : Vault → Text → Prog Status
status_in v mounts = do
  node ← ask (stat (mapper_path v.mapper_name))
  let mounted = mounted_in v.mount_point mounts
  give (record { unlocked = elim node [ ok _ ↦ true | err _ ↦ mounted ]; mounted = mounted })
