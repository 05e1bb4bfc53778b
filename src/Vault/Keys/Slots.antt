-- ===== src/Vault/Keys/Slots.antt =====
-- Which keyslots may be removed.
use lukscrypt.Prelude.{
  ◌+◌, ◌≤◌, Bool, true, false, none, List, [], ◌∷◌, ◌≡◌, refl, ◌↔◌, arith, length, keep, ◌&&◌, ◌||◌,
  not, any, All, Bool-cases, inl, inr,
}
use lukscrypt.Prelude.Int.{ℤ, pos, negsuc}
use lukscrypt.Vault.Header.{KeySlot, LuksDetails}
use lukscrypt.Vault.Keys.{is_valid, same_index, Tally, tally, validate_kill_slot}

abbrev pub valid_slots : List KeySlot → List KeySlot
valid_slots = keep is_valid

tally_valid :
    (slot : ℤ) (t : Tally) (ks : List KeySlot)
    → (tally slot t ks).valid ≡ t.valid + length (valid_slots ks)
unfolding tally
tally_valid slot t [] = omega arith
tally_valid slot t (k ∷ ks) = ground (
  arith,
  tally_valid slot (record { valid = t.valid + 1; found = same_index k.index slot || t.found }) ks,
  tally_valid slot t ks,
)

-- The slot is one of the valid ones.
abbrev pub is_listed : ℤ → List KeySlot → Bool
is_listed slot ks = any (λ k. is_valid k && same_index k.index slot) ks

tally_found :
    (slot : ℤ) (t : Tally) (ks : List KeySlot)
    → (tally slot t ks).found ≡ (t.found || is_listed slot ks)
unfolding tally
tally_found slot t [] = ground arith
tally_found slot t (k ∷ ks) = ground (
  arith,
  tally_found slot (record { valid = t.valid + 1; found = same_index k.index slot || t.found }) ks,
  tally_found slot t ks,
)

-- The check passes exactly when the slot is a valid one and at least two slots are valid.
pub validate_kill_slot_iff :
    (d : LuksDetails) (slot : ℤ)
    → (validate_kill_slot d slot ≡ none)
      ↔ ((is_listed slot d.key_slots ≡ true) × (2 ≤ length (valid_slots d.key_slots)))
unfolding validate_kill_slot
validate_kill_slot_iff d slot = ground (
  arith,
  tally_found slot (record { valid = 0; found = false }) d.key_slots,
  tally_valid slot (record { valid = 0; found = false }) d.key_slots,
)

pub same_index_eq : (a b : ℤ) → same_index a b ≡ true → a ≡ b
same_index_eq (pos a) (pos b) h = ground arith
same_index_eq (negsuc a) (negsuc b) h = ground arith
same_index_eq (pos a) (negsuc b) h = cc
same_index_eq (negsuc a) (pos b) h = cc

same_index_refl : (a : ℤ) → same_index a a ≡ true
same_index_refl (pos a) = ground arith
same_index_refl (negsuc a) = ground arith

abbrev pub HasDistinctIndexes : List KeySlot → Type 0
HasDistinctIndexes [] = Unit
HasDistinctIndexes (k ∷ ks) =
    All (λ j. same_index j.index k.index ≡ false) ks × HasDistinctIndexes ks

-- The valid slots at an index, and those at the others.
abbrev at_index : ℤ → List KeySlot → List KeySlot
at_index slot = keep (λ k. is_valid k && same_index k.index slot)

abbrev pub remaining : ℤ → List KeySlot → List KeySlot
remaining slot = keep (λ k. is_valid k && not (same_index k.index slot))

valid_split :
    (slot : ℤ) (ks : List KeySlot)
    → length (valid_slots ks) ≡ length (at_index slot ks) + length (remaining slot ks)
valid_split slot [] = omega arith
valid_split slot (k ∷ ks) = ground (arith, valid_split slot ks)

at_index_absent :
    (slot : ℤ) (ks : List KeySlot)
    → All (λ j. same_index j.index slot ≡ false) ks
    → length (at_index slot ks) ≡ 0
at_index_absent slot [] h = refl
at_index_absent slot (k ∷ ks) (h, hs) = ground (arith, at_index_absent slot ks hs)

at_index_le : (slot : ℤ) (ks : List KeySlot) → HasDistinctIndexes ks → length (at_index slot ks) ≤ 1
at_index_le slot [] h = omega arith
at_index_le slot (k ∷ ks) (fresh, h) = elim (Bool-cases (same_index k.index slot)) [
  | inl same ↦
      let absent = at_index_absent k.index ks fresh in
      let here = rw (same_index_eq k.index slot same) at absent in ground (arith, here)
  | inr other ↦ ground (arith, at_index_le slot ks h)
]

-- Where no two slots have one index, a slot that passes the check leaves another valid slot behind.
pub validate_kill_slot-remaining :
    (d : LuksDetails) (slot : ℤ)
    → HasDistinctIndexes d.key_slots
    → validate_kill_slot d slot ≡ none
    → 1 ≤ length (remaining slot d.key_slots)
validate_kill_slot-remaining d slot distinct passed = omega (
  arith,
  ((validate_kill_slot_iff d slot).0 passed).1,
  valid_split slot d.key_slots,
  at_index_le slot d.key_slots distinct,
)
