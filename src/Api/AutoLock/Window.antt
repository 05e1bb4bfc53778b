-- ===== src/Api/AutoLock/Window.antt =====
-- Which vaults the auto-lock policy locks.
use lukscrypt.Prelude.{
  inl, inr, ◌⊎◌, ℕ, ◌-◌, ◌≤◌, ◌≡◌, refl, ◌≢◌, ◌↔◌, inl, inr, Bool, true, false, Option, none, some,
  List, [], ◌∷◌, arith, Bool-cases, ◌==◌, nat_eq, any, text_eq,
}
use lukscrypt.Prelude.Dict.{
  insert, lookup-erase, lookup-insert, lookup-erase_self, lookup, NodupKeys,
}
use lukscrypt.Sys.{Vault, give}
use lukscrypt.Api.AutoLock.{
  clear_unlocked, UnlockedAt, mark_unlocked, unlocked_since, window_restarted, same_time, settle,
  auto_lock_vault, expired_ids,
}

abbrev pub is_among : ℕ → List ℕ → Bool
is_among id ids = any (λ j. j == id) ids

expired_ids-absent :
    (window now id : ℕ) (m : UnlockedAt)
    → lookup id m ≡ none
    → is_among id (expired_ids window now m) ≡ false
unfolding lookup expired_ids
expired_ids-absent window now id [] h = refl
expired_ids-absent window now id ((j, since) ∷ m) h =
    ground (arith, expired_ids-absent window now id m)

nat_beq_eq : (a b : ℕ) → (a == b) ≡ true → a ≡ b
nat_beq_eq a b h = ground arith

-- A sweep visits exactly the vaults that have been unlocked for the whole window.
pub expired_ids_iff :
    (window now id : ℕ) (m : UnlockedAt)
    → NodupKeys m
    → (is_among id (expired_ids window now m) ≡ true)
      ↔ ((since : ℕ) × (lookup id m ≡ some since) × (window ≤ now - since))
unfolding lookup expired_ids
expired_ids_iff window now id [] u = (λ e. cc, λ t. cc (t.1))
expired_ids_iff window now id ((j, since) ∷ m) (fresh, u) = elim (Bool-cases (j == id)) [
  | inl same ↦
      let absent : lookup id m ≡ none = rw (← nat_beq_eq j id same) fresh in
      let missing = expired_ids-absent window now id m absent in
      (
        λ e. (since, ground arith, ground (arith, missing)),
        λ t. let found = t.1 in let long = t.2 in ground (arith, missing),
      )
  | inr other ↦
      let (to, from) = expired_ids_iff window now id m u in
      (
        λ e. let (s, found, long) = to (ground arith) in (s, ground arith, long),
        λ t. let here = from (t.0, ground arith, t.2) in ground arith,
      )
]

same_time_iff : (a b : Option ℕ) → (same_time a b ≡ true) ↔ (a ≡ b)
same_time_iff none none = (λ _. refl, λ _. refl)
same_time_iff none (some b) = (λ e. cc, λ e. cc)
same_time_iff (some a) none = (λ e. cc, λ e. cc)
same_time_iff (some a) (some b) = ground arith

-- Where a handler restarted or ended the vault's window between the first two reads, nothing is
-- locked, no call is made, and no window changes.
pub auto_lock_vault-skips :
    (id : ℕ) (before after last : UnlockedAt) (v : Vault)
    → unlocked_since id after ≢ unlocked_since id before
    → auto_lock_vault id before (some v) after last ≡ give last
unfolding auto_lock_vault window_restarted
auto_lock_vault-skips id before after last v h =
    let (to, _) = same_time_iff (unlocked_since id after) (unlocked_since id before) in
    elim (Bool-cases (same_time (unlocked_since id after) (unlocked_since id before))) [
      | inl same ↦ absurd (h (to same))
      | inr differs ↦ rw differs refl
    ]

-- A window that an unlock starts after the sweep's lock succeeded, and before the sweep settles the
-- map, is lost: the vault is tracked no more. Another vault's window stays as it was.
pub settle-mark_unlocked :
    (now id j : ℕ) (m : UnlockedAt)
    → (unlocked_since id (settle id (mark_unlocked now id m) none) ≡ none)
      × ((j ≡ id)
          ⊎ (unlocked_since j (settle id (mark_unlocked now id m) none) ≡ unlocked_since j m))
unfolding settle clear_unlocked mark_unlocked unlocked_since
settle-mark_unlocked now id j m = (
  lookup-erase_self id (insert id now m),
  elim (Bool-cases (id == j)) [
    | inl same ↦ inl (ground arith)
    | inr other ↦
        inr (rw (lookup-erase id j (insert id now m), lookup-insert id j now m, other) refl)
  ],
)
