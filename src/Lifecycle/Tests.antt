-- ===== src/Lifecycle/Tests.antt =====
-- Shutdowns at concrete events.
use lukscrypt.Prelude.{true, false, List, [], ◌∷◌, ◌≡◌, refl}
use lukscrypt.Vault.Access.{VaultLockError}
use lukscrypt.Lifecycle.{Event, serving, exited, signal, cancels, drains, locks, returns, step, run}
use lukscrypt.Lifecycle.Exit.{Embeds, run-exited_zero}

abbrev graceful : List Event
graceful = signal ∷ cancels ∷ drains true ∷ locks [] ∷ returns ∷ []

graceful_exit : run graceful serving ≡ exited 0
unfolding run step
graceful_exit = refl

late_drain_test : run (signal ∷ cancels ∷ drains false ∷ locks [] ∷ returns ∷ []) serving ≡ exited 1
unfolding run step
late_drain_test = refl

run-exited_zero_example :
    (failures : List VaultLockError) × Embeds
      (signal ∷ cancels ∷ drains true ∷ locks failures ∷ returns ∷ [])
      graceful
run-exited_zero_example = run-exited_zero graceful graceful_exit
