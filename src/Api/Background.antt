-- ===== src/Api/Background.antt =====
-- What runs beside the requests: internal/api/api.go, the goroutine of `createVault` and the start
-- of `autoLockLoop`, and the end of main.go's `main`.
pub mod Startup
mod Tests
use lukscrypt.Prelude.{ℕ, Text, Bool, Option, some, List, [], ◌∷◌, if◌then◌else◌}
use lukscrypt.Prelude.Int.{pos}
use lukscrypt.Sys.{
  Vault, Res, ok, err, Prog, give, ask, ◌>>=◌, ◌>>◌, list_vaults, find_vault_named, track,
}
use lukscrypt.Vault.Mounts.{is_unlocked}
use lukscrypt.Vault.Access.{VaultLockError, lock_all_unlocked}
use lukscrypt.Vault.Create.{create}

track_if_unlocked : Vault → Prog (Unit {0})
unfolding is_unlocked
track_if_unlocked v = do
  unlocked ← is_unlocked v
  if unlocked then ask (track (pos v.id)) else give tt

track_found : Res (Option Vault) → Prog (Unit {0})
unfolding track_if_unlocked
track_found (ok (some v)) = track_if_unlocked v
track_found _ = give tt

-- The name is looked up whether the creation succeeded or not.
unfoldable pub create_in_background :
    (name path : Text) → (size_gb : ℕ) → (password mount_point : Text) → Prog (Unit {0})
unfolding create track_found
create_in_background name path size_gb password mount_point = do
  create name path size_gb password mount_point
  ask (find_vault_named name) >>= track_found

track_each : List Vault → Prog (Unit {0})
unfolding track_if_unlocked
track_each [] = give tt
track_each (v ∷ vs) = do track_if_unlocked v; track_each vs

track_listed : Res (List Vault) → Prog (Unit {0})
unfolding track_each
track_listed (ok vs) = track_each vs
track_listed (err e) = give tt

-- Vaults that are open at the start get a window from then on.
unfoldable pub start_windows : Prog (Unit {0})
unfolding track_listed
start_windows = ask list_vaults >>= track_listed

-- After the HTTP drain: the failures that are logged, and the exit status.
unfoldable pub shut_down : (drained : Bool) → Prog (List VaultLockError × ℕ)
unfolding lock_all_unlocked
shut_down drained = do failures ← lock_all_unlocked; give (failures, if drained then 0 else 1)
