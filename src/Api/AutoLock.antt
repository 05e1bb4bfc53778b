-- ===== src/Api/AutoLock.antt =====
-- internal/api/api.go: the auto-lock policy, `markUnlocked`, `clearUnlocked`, `windowRestarted`,
-- `autoLockSweep` and `autoLockVault`. The map of unlock times is an argument; where other
-- handlers run between two reads of it, the two states are two arguments. The window is in
-- nanoseconds, `none` where the policy is off.
pub mod Window
pub mod Sweep
use lukscrypt.Prelude.{
  ℕ, ◌-◌, Bool, true, false, not, Option, none, some, List, [], ◌∷◌, arith, leb, if◌then◌else◌, Eq,
  ◌==◌, nat_eq, Text, text, text_eq, contains,
}
use lukscrypt.Prelude.Dict.{Dict, lookup, insert, erase}
use lukscrypt.Sys.{Vault, Prog, give, ◌>>=◌, by_context}
use lukscrypt.Vault.Access.{lock_context}

-- `h.unlockedAt`, by vault id.
abbrev pub UnlockedAt : Type 0
UnlockedAt = Dict ℕ ℕ

unfoldable pub mark_unlocked : ℕ → ℕ → UnlockedAt → UnlockedAt
mark_unlocked now id m = insert id now m

unfoldable pub clear_unlocked : ℕ → UnlockedAt → UnlockedAt
clear_unlocked id m = erase id m

-- A missing id has the zero time, `none`.
unfoldable pub unlocked_since : ℕ → UnlockedAt → Option ℕ
unlocked_since id m = lookup id m

abbrev same_time : Option ℕ → Option ℕ → Bool
same_time none none = true
same_time (some a) (some b) = a == b
same_time _ _ = false

unfoldable pub window_restarted : ℕ → Option ℕ → UnlockedAt → Bool
unfolding unlocked_since
window_restarted id since m = not (same_time (unlocked_since id m) since)

-- What remains tracked after a lock attempt.
unfoldable pub settle : ℕ → UnlockedAt → Option Text → UnlockedAt
unfolding clear_unlocked contains
settle id m none = clear_unlocked id m
settle id m (some e) = if contains e (text "already locked") then clear_unlocked id m else m

-- `before` is the map at the first read, `found` the record, `after` the map under `opMu`, and
-- `last` the map when `opMu` has been given back.
unfoldable pub auto_lock_vault :
    (id : ℕ) (before : UnlockedAt) (found : Option Vault) (after last : UnlockedAt)
    → Prog UnlockedAt
unfolding window_restarted settle clear_unlocked lock_context
auto_lock_vault id before none after last = give (clear_unlocked id last)
auto_lock_vault id before (some v) after last =
    if window_restarted id (unlocked_since id before) after
    then give last
    else lock_context by_context v >>= λ e. give (settle id last e)

-- The ids whose window has passed.
unfoldable pub expired_ids : (window now : ℕ) → UnlockedAt → List ℕ
expired_ids window now [] = []
expired_ids window now ((id, since) ∷ m) =
    let rest = expired_ids window now m in if leb window (now - since) then id ∷ rest else rest

lock_expired : (get_vault : ℕ → Option Vault) → List ℕ → UnlockedAt → Prog UnlockedAt
unfolding auto_lock_vault
lock_expired get_vault [] m = give m
lock_expired get_vault (id ∷ ids) m =
    auto_lock_vault id m (get_vault id) m m >>= λ m'. lock_expired get_vault ids m'

-- A sweep that no handler disturbs.
unfoldable pub auto_lock_sweep :
    (window : Option ℕ) (now : ℕ) (get_vault : ℕ → Option Vault) → UnlockedAt → Prog UnlockedAt
unfolding lock_expired expired_ids
auto_lock_sweep none now get_vault m = give m
auto_lock_sweep (some window) now get_vault m = lock_expired get_vault (expired_ids window now m) m
