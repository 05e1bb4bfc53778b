-- ===== src/Lifecycle/Exit.antt =====
-- How the process ends.
use lukscrypt.Prelude.{
  ℕ, Bool, true, List, [], ◌∷◌, ◌≡◌, refl, ap, sym, ◌⊎◌, inl, inr, arith, if◌then◌else◌,
}
use lukscrypt.Vault.Access.{VaultLockError}
use lukscrypt.Lifecycle.{
  Phase, serving, stopping, cancelled, drained, locked, exited, Event, signal, listen_failed,
  cancels, drains, locks, returns, on_signal, on_listen_failed, on_cancel, on_drain, on_lock,
  on_return, step, run,
}

-- The first events stand among the second ones, in this order.
abbrev pub Embeds : List Event → List Event → Type 0
Embeds [] es = Unit
Embeds (x ∷ xs) [] = ⊥
Embeds (x ∷ xs) (e ∷ es) = ((x ≡ e) × Embeds xs es) ⊎ Embeds (x ∷ xs) es

-- What has to happen for an exit with status 0, from each phase.
abbrev Ends : Phase → List Event → Type 0
Ends serving es =
    (failures : List VaultLockError) × Embeds
      (signal ∷ cancels ∷ drains true ∷ locks failures ∷ returns ∷ []) es
Ends stopping es =
    (failures : List VaultLockError) × Embeds
      (cancels ∷ drains true ∷ locks failures ∷ returns ∷ []) es
Ends cancelled es =
    (failures : List VaultLockError) × Embeds (drains true ∷ locks failures ∷ returns ∷ []) es
Ends (drained in_time) es =
    (in_time ≡ true) × (failures : List VaultLockError) × Embeds (locks failures ∷ returns ∷ []) es
Ends (locked in_time failures) es = (in_time ≡ true) × Embeds (returns ∷ []) es
Ends (exited status) es = status ≡ 0

in_time_lem : (b : Bool) → ◌≡◌ {A = ℕ} (if b then 0 else 1) 0 → b ≡ true
in_time_lem b h = ground (arith, h)

back : (e : Event) (p : Phase) (es : List Event) → Ends (step e p) es → Ends p (e ∷ es)
unfolding step on_signal on_listen_failed on_cancel on_drain on_lock on_return
back signal serving es (fs, k) = (fs, inl (refl, k))
back signal stopping es h = absurd (omega (arith, h))
back signal cancelled es h = absurd (omega (arith, h))
back signal (drained t) es h = absurd (omega (arith, h))
back signal (locked t gs) es h = absurd (omega (arith, h))
back signal (exited n) es h = h
back listen_failed serving es h = absurd (omega (arith, h))
back listen_failed stopping es h = absurd (omega (arith, h))
back listen_failed cancelled es h = absurd (omega (arith, h))
back listen_failed (drained t) es (u, fs, k) = (u, fs, inr k)
back listen_failed (locked t gs) es (u, k) = (u, inr k)
back listen_failed (exited n) es h = h
back cancels serving es (fs, k) = (fs, inr k)
back cancels stopping es (fs, k) = (fs, inl (refl, k))
back cancels cancelled es (fs, k) = (fs, inr k)
back cancels (drained t) es (u, fs, k) = (u, fs, inr k)
back cancels (locked t gs) es (u, k) = (u, inr k)
back cancels (exited n) es h = h
back (drains b) serving es (fs, k) = (fs, inr k)
back (drains b) stopping es (fs, k) = (fs, inr k)
back (drains b) cancelled es (t, fs, k) = (fs, inl (ap drains (sym t), k))
back (drains b) (drained t) es (u, fs, k) = (u, fs, inr k)
back (drains b) (locked t gs) es (u, k) = (u, inr k)
back (drains b) (exited n) es h = h
back (locks fs) serving es (gs, k) = (gs, inr k)
back (locks fs) stopping es (gs, k) = (gs, inr k)
back (locks fs) cancelled es (gs, k) = (gs, inr k)
back (locks fs) (drained t) es (u, k) = (u, fs, inl (refl, k))
back (locks fs) (locked t gs) es (u, k) = (u, inr k)
back (locks fs) (exited n) es h = h
back returns serving es (fs, k) = (fs, inr k)
back returns stopping es (fs, k) = (fs, inr k)
back returns cancelled es (fs, k) = (fs, inr k)
back returns (drained t) es (u, fs, k) = (u, fs, inr k)
back returns (locked t gs) es h = (in_time_lem t h, inl (refl, tt))
back returns (exited n) es h = h

ends : (es : List Event) (p : Phase) → run es p ≡ exited 0 → Ends p es
unfolding run
ends [] serving h = absurd (cc (h))
ends [] stopping h = absurd (cc (h))
ends [] cancelled h = absurd (cc (h))
ends [] (drained t) h = absurd (cc (h))
ends [] (locked t gs) h = absurd (cc (h))
ends [] (exited n) h = ground (arith, h)
ends (e ∷ es) p h = back e p es (ends es (step e p) h)

-- In whatever order signals, failures of the listener and the steps of the shutdown come: an exit
-- with status 0 means that a signal came, then the server's context was cancelled, then the drain
-- ended in time, then the locking of the vaults was carried out, and then `main` returned.
pub run-exited_zero :
    (es : List Event)
    → run es serving ≡ exited 0
    → (failures : List VaultLockError) × Embeds
        (signal ∷ cancels ∷ drains true ∷ locks failures ∷ returns ∷ [])
        es
run-exited_zero es h = ends es serving h
