-- ===== src/Api/Operate/Windows.antt =====
-- What unlocking, locking and mounting through the API leave behind: the device, the filesystem,
-- and the window of the auto-lock policy.
use lukscrypt.Prelude.{true, false, ◌≡◌}
use lukscrypt.Prelude.Int.{ℤ, pos}
use lukscrypt.Sys.{Vault, Call, Answer, Prog}
use lukscrypt.Sys.Ensures.{Ensures}
use lukscrypt.Sys.Quiet.{both}
use lukscrypt.Vault.Access.Held
use lukscrypt.Vault.Access.Held.{Held, nothing}
use lukscrypt.Api.Reply.{Reply, done, refusal, VaultResponse, Credential}
use lukscrypt.Api.Operate.{unlock_locked, lock_locked, mount_locked}

-- The last change of the map of unlock times, with what was held at that moment.
pub data Window : Type 0 where
  unchanged : Window
  started ended : ℤ → Held → Window

abbrev pub next_window : (c : Call) → Answer c → Held → Window → Window
next_window (Call.track id) r h w = started id h
next_window (Call.untrack id) r h w = ended id h
next_window _ r h w = w

-- What the monitor of a vault's image, device and mount point shows, and its window.
abbrev pub watch : Vault → (c : Call) → Answer c → Held × Window → Held × Window
watch v = both (Held.next v.path v.mapper_name v.mount_point) next_window

-- What is asked of one vault, under `opMu`.
pub data Op : Type 0 where
  unlocks : Credential → Op
  locks mounts : Op

unfoldable pub perform : Op → Vault → Prog (Reply VaultResponse)
unfolding unlock_locked lock_locked mount_locked
perform (unlocks c) v = unlock_locked c v
perform locks v = lock_locked v
perform mounts v = mount_locked v

-- A device that is open and mounted.
abbrev opened : Held
opened = record nothing { device = true; mounted = true }

-- The worst case before each: a lock has a device to close, the others have acquired nothing.
abbrev pub at_first : Op → Held
at_first locks = opened
at_first _ = nothing

-- A window starts only for a device that is open and mounted, and ends only for one that is closed
-- and not mounted; a refusal changes no window, and one of an unlock leaves no device open.
abbrev pub IsPerformed : Op → Vault → Held × Window → Reply VaultResponse → Type 0
IsPerformed (unlocks c) v (h, w) (done r) =
    (k : Held) × (w ≡ started (pos v.id) k) × (k.device ≡ true) × (k.mounted ≡ true)
IsPerformed (unlocks c) v (h, w) (refusal status e) = (w ≡ unchanged) × (h.device ≡ false)
IsPerformed locks v (h, w) (done r) =
    (k : Held) × (w ≡ ended (pos v.id) k) × (k.device ≡ false) × (k.mounted ≡ false)
IsPerformed locks v (h, w) (refusal status e) = (w ≡ unchanged) × (h.early_close ≡ false)
IsPerformed mounts v (h, w) r = w ≡ unchanged
