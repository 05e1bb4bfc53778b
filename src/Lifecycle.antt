-- ===== src/Lifecycle.antt =====
-- main.go, `main` from the start of the listener to the exit, as the steps of one process: the
-- listener's goroutine, the signals, the HTTP drain and the locking of the open vaults. The logs are
-- left out; what the locking does is `lock_all_unlocked` of Vault.Access.
pub mod Exit
mod Tests
use lukscrypt.Prelude.{ℕ, Bool, List, [], ◌∷◌, if◌then◌else◌}
use lukscrypt.Vault.Access.{VaultLockError}

-- Listening; a first signal has come; the server's context is cancelled; the drain is over, in time
-- or not; the vaults have been locked but for the failures; the process has exited with a status.
pub data Phase : Type 0 where
  serving stopping cancelled : Phase
  drained : (in_time : Bool) → Phase
  locked : (in_time : Bool) → List VaultLockError → Phase
  exited : (status : ℕ) → Phase

pub data Event : Type 0 where
  -- SIGTERM or SIGINT, the first or another one; `ListenAndServe` fails
  signal listen_failed : Event
  -- `serverCancel`, `Shutdown`, `LockAllUnlocked`, and the end of `main`
  cancels : Event
  drains : (in_time : Bool) → Event
  locks : List VaultLockError → Event
  returns : Event

-- The second signal skips the locking.
on_signal : Phase → Phase
on_signal serving = stopping
on_signal (exited status) = exited status
on_signal _ = exited 1

-- Once `Shutdown` is over, the listener's error is `ErrServerClosed`.
on_listen_failed : Phase → Phase
on_listen_failed serving = exited 1
on_listen_failed stopping = exited 1
on_listen_failed cancelled = exited 1
on_listen_failed p = p

on_cancel : Phase → Phase
on_cancel stopping = cancelled
on_cancel p = p

on_drain : Bool → Phase → Phase
on_drain in_time cancelled = drained in_time
on_drain in_time p = p

on_lock : List VaultLockError → Phase → Phase
on_lock failures (drained in_time) = locked in_time failures
on_lock failures p = p

on_return : Phase → Phase
on_return (locked in_time failures) = exited (if in_time then 0 else 1)
on_return p = p

unfoldable pub step : Event → Phase → Phase
unfolding on_signal on_listen_failed on_cancel on_drain on_lock on_return
step signal p = on_signal p
step listen_failed p = on_listen_failed p
step cancels p = on_cancel p
step (drains in_time) p = on_drain in_time p
step (locks failures) p = on_lock failures p
step returns p = on_return p

unfoldable pub run : List Event → Phase → Phase
unfolding step
run [] p = p
run (e ∷ es) p = run es (step e p)
