-- ===== src/Prelude/Dict.antt =====
-- Go maps as association lists. One entry a key; a write replaces.
use mathlib.Core.Path.{◌≡◌, refl}
use mathlib.Core.Option.{Option, none, some}
use mathlib.Core.List.{List, [], ◌∷◌}
use native.Mathlib.Omega.{arith}
use mathlib.Core.Bool.{Bool}
use mathlib.Core.Logic.{inl, inr}
use lukscrypt.Prelude.Tests.{Eq, ◌==◌, if◌then◌else◌, Bool-cases}

abbrev pub Dict {ℓ κ} : Type ℓ → Type κ → Type (ℓ ⊔ κ)
Dict K V = List (K × V)

-- A value, unless it passes a test.
abbrev pub unless {κ} : {V : Type κ} → (V → Bool) → Option V → Option V
unless p none = none
unless p (some v) = if p v then none else some v

module _ {ℓ κ} {K : Type ℓ} {V : Type κ} ⦃e : Eq K⦄ where
  unfoldable pub lookup : K → Dict K V → Option V
  lookup k [] = none
  lookup k ((j, v) ∷ d) = if j == k then some v else lookup k d

  unfoldable pub insert : K → V → Dict K V → Dict K V
  insert k v [] = (k, v) ∷ []
  insert k v ((j, w) ∷ d) = if j == k then (k, v) ∷ d else (j, w) ∷ insert k v d

  unfoldable pub erase : K → Dict K V → Dict K V
  erase k [] = []
  erase k ((j, w) ∷ d) = let rest = erase k d in if j == k then rest else (j, w) ∷ rest

  pub lookup-insert :
      (k j : K) (v : V) (d : Dict K V)
      → lookup j (insert k v d) ≡ (if k == j then some v else lookup j d)
  unfolding lookup insert
  lookup-insert k j v [] = refl
  lookup-insert k j v ((i, w) ∷ d) =
      ground (arith, e.beq_iff k j, e.beq_iff i k, e.beq_iff i j, lookup-insert k j v d)

  pub lookup-erase :
      (k j : K) (d : Dict K V) → lookup j (erase k d) ≡ (if k == j then none else lookup j d)
  unfolding lookup erase
  lookup-erase k j [] = ground arith
  lookup-erase k j ((i, w) ∷ d) =
      ground (arith, e.beq_iff k j, e.beq_iff i k, e.beq_iff i j, lookup-erase k j d)

  pub lookup-insert_self : (k : K) (v : V) (d : Dict K V) → lookup k (insert k v d) ≡ some v
  lookup-insert_self k v d = simp (lookup-insert, (e.beq_iff k k).1 refl)

  pub lookup-erase_self : (k : K) (d : Dict K V) → lookup k (erase k d) ≡ none
  lookup-erase_self k d = simp (lookup-erase, (e.beq_iff k k).1 refl)

  -- No key stands in two entries.
  abbrev pub NodupKeys : Dict K V → Type κ
  NodupKeys [] = Unit
  NodupKeys ((k, v) ∷ d) = (lookup k d ≡ none) × NodupKeys d

  pub insert-NodupKeys : (k : K) (v : V) (d : Dict K V) → NodupKeys d → NodupKeys (insert k v d)
  unfolding insert lookup
  insert-NodupKeys k v [] _ = (refl, tt)
  insert-NodupKeys k v ((j, w) ∷ d) (fresh, u) =
      ground (arith, e.beq_iff j k, e.beq_iff k j, insert-NodupKeys k v d u, lookup-insert k j v d)

  pub erase-NodupKeys : (k : K) (d : Dict K V) → NodupKeys d → NodupKeys (erase k d)
  unfolding erase
  erase-NodupKeys k [] _ = tt
  erase-NodupKeys k ((j, w) ∷ d) (fresh, u) =
      ground (arith, erase-NodupKeys k d u, lookup-erase k j d)

  -- The entries that fail a test; a range loop that deletes the others.
  unfoldable pub discard : (V → Bool) → Dict K V → Dict K V
  discard p [] = []
  discard p ((j, w) ∷ d) = let rest = discard p d in if p w then rest else (j, w) ∷ rest

  pub lookup-discard :
      (p : V → Bool) (k : K) (d : Dict K V)
      → NodupKeys d
      → lookup k (discard p d) ≡ unless p (lookup k d)
  unfolding lookup discard
  lookup-discard p k [] u = refl
  lookup-discard p k ((j, w) ∷ d) (fresh, u) =
      let ih = lookup-discard p k d u in
      elim (Bool-cases (j == k)) [
        | inl same ↦
            let absent : lookup k d ≡ none = rw (← (e.beq_iff j k).0 same) fresh in
            elim (Bool-cases (p w)) [
              | inl gone ↦ rw (same, gone, ih, absent) refl
              | inr kept ↦ rw (same, kept) (rw same)
            ]
        | inr other ↦ elim (Bool-cases (p w)) [
          | inl gone ↦ rw (other, gone) ih
          | inr kept ↦ rw (other, kept) (rw other ih)
        ]
      ]

  pub discard-NodupKeys : (p : V → Bool) (d : Dict K V) → NodupKeys d → NodupKeys (discard p d)
  unfolding discard
  discard-NodupKeys p [] u = tt
  discard-NodupKeys p ((j, w) ∷ d) (fresh, u) =
      ground (arith, discard-NodupKeys p d u, lookup-discard p j d u)
