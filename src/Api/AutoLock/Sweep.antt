-- ===== src/Api/AutoLock/Sweep.antt =====
-- What a sweep of the auto-lock policy does to the windows, when no handler comes in between.
use lukscrypt.Prelude.{
  ℕ, ◌-◌, ◌≤◌, ◌≡◌, refl, ◌∙◌, ◌⊎◌, inl, inr, Bool, true, ◌||◌, Option, none, some, List, [], ◌∷◌,
  arith, Bool-cases, ◌==◌, nat_eq, Text, text, contains,
}
use lukscrypt.Prelude.Dict.{lookup, lookup-erase, NodupKeys}
use lukscrypt.Sys.{Vault, Call, Answer, give, by_context}
use lukscrypt.Sys.Ensures.{Ensures, Ensures-bind, Ensures-if, Ensures-mono}
use lukscrypt.Sys.Quiet.{Ensures-trivial}
use lukscrypt.Vault.Access.{lock_context}
use lukscrypt.Api.AutoLock.{
  UnlockedAt, clear_unlocked, unlocked_since, window_restarted, settle, auto_lock_vault,
  expired_ids, lock_expired, auto_lock_sweep,
}
use lukscrypt.Api.AutoLock.Window.{is_among, expired_ids_iff}

abbrev pub unwatched : (c : Call) → Answer c → Unit {0} → Unit {0}
unwatched c r s = s

module _ (j : ℕ) where
  -- The window is as it was, or it has ended and is one of those that may.
  abbrev Left : (may : Bool) → UnlockedAt → UnlockedAt → Type 0
  Left may m m' = (lookup j m' ≡ lookup j m) ⊎ ((lookup j m' ≡ none) × (may ≡ true))

  clear_lem : (id : ℕ) (m : UnlockedAt) → Left (id == j) m (clear_unlocked id m)
  unfolding clear_unlocked
  clear_lem id m = elim (Bool-cases (id == j)) [
    | inl e ↦ inr (rw (lookup-erase id j m, e) refl, e)
    | inr e ↦ inl (rw (lookup-erase id j m, e) refl)
  ]

  settle_lem : (id : ℕ) (m : UnlockedAt) (o : Option Text) → Left (id == j) m (settle id m o)
  unfolding settle
  settle_lem id m none = clear_lem id m
  settle_lem id m (some e) = elim (Bool-cases (contains e (text "already locked"))) [
    | inl gone ↦ rw gone (clear_lem id m)
    | inr kept ↦ rw kept (inl refl)
  ]

  auto_lock_vault_lem :
      (id : ℕ) (o : Option Vault) (m : UnlockedAt)
      → Ensures unwatched (λ _ m'. Left (id == j) m m') tt (auto_lock_vault id m o m m)
  unfolding auto_lock_vault
  auto_lock_vault_lem id none m = clear_lem id m
  auto_lock_vault_lem id (some v) m =
      Ensures-if unwatched _ (window_restarted id (unlocked_since id m) m) (give m) _ tt
        (λ _. inl refl)
        λ _.
          Ensures-bind unwatched (λ _ _. Unit {0}) _ (lock_context by_context v) _ tt
            (Ensures-trivial unwatched (lock_context by_context v) tt) λ _ e _. settle_lem id m e

  Left-trans :
      (a b : Bool) (m m' m'' : UnlockedAt) → Left a m m' → Left b m' m'' → Left (a || b) m m''
  Left-trans a b m m' m'' (inl p) (inl q) = inl (q ∙ p)
  Left-trans a b m m' m'' (inl p) (inr (q, h)) = inr (q, ground arith)
  Left-trans a b m m' m'' (inr (p, h)) (inl q) = inr (q ∙ p, ground arith)
  Left-trans a b m m' m'' (inr (p, h)) (inr (q, k)) = inr (q, ground arith)

  lock_expired_lem :
      (get_vault : ℕ → Option Vault) (ids : List ℕ) (m : UnlockedAt)
      → Ensures unwatched (λ _ m'. Left (is_among j ids) m m') tt (lock_expired get_vault ids m)
  unfolding lock_expired
  lock_expired_lem get_vault [] m = inl refl
  lock_expired_lem get_vault (id ∷ ids) m =
      Ensures-bind unwatched _ _ (auto_lock_vault id m (get_vault id) m m) _ tt
        (auto_lock_vault_lem id (get_vault id) m)
        λ _ m' h.
          Ensures-mono unwatched _ _ (lock_expired get_vault ids m') tt
            (lock_expired_lem get_vault ids m')
            λ _ m'' k. Left-trans (id == j) (is_among j ids) m m' m'' h k

-- The window has passed.
abbrev pub IsDue : Option ℕ → (now id : ℕ) → UnlockedAt → Type 0
IsDue none now id m = ⊥
IsDue (some window) now id m = (since : ℕ) × (lookup id m ≡ some since) × (window ≤ now - since)

-- Whatever the system answers, and when no handler changes a window meanwhile: after a sweep each
-- vault's window is as it was, or it has ended and had passed. With the policy off no window ends.
pub auto_lock_sweep-spares :
    (window : Option ℕ) (now : ℕ) (get_vault : ℕ → Option Vault) (m : UnlockedAt) (id : ℕ)
    → NodupKeys m
    → Ensures unwatched
        (λ _ m'. (lookup id m' ≡ lookup id m) ⊎ ((lookup id m' ≡ none) × IsDue window now id m))
        tt
        (auto_lock_sweep window now get_vault m)
unfolding auto_lock_sweep
auto_lock_sweep-spares none now get_vault m id u = inl refl
auto_lock_sweep-spares (some window) now get_vault m id u =
    Ensures-mono unwatched _ _ (lock_expired get_vault (expired_ids window now m) m) tt
      (lock_expired_lem id get_vault (expired_ids window now m) m)
      λ _ m'. elim [
        | inl kept ↦ inl kept
        | inr (gone, due) ↦ inr (gone, (expired_ids_iff window now id m u).0 due)
      ]
