-- ===== src/Vault/Header/Order.antt =====
-- The order in which the keyslots of a LUKS2 header are listed.
use lukscrypt.Prelude.{
  Text, true, false, List, [], ◌∷◌, ◌++◌, map, ◌≡◌, refl, ap, ◌∙◌, sym, inl, inr, arith,
  append_assoc, append-nil, Bool-cases, All,
}
use lukscrypt.Prelude.Dict.{Dict}
use lukscrypt.Prelude.Int.{ℤ, pos, negsuc, leb_ℤ}
use lukscrypt.Prelude.Decimal.{Parsed, good, out_of_range, bad_syntax, parse_int}
use lukscrypt.Vault.Header.{
  KeySlot, LuksDetails, Luks2Header, insert_sorted, index_keys, sorted_indexes, add_slot, add_slots,
  parse_luks2,
}

abbrev IsBelow : ℤ → List ℤ → Type 0
IsBelow n ms = All (λ m. leb_ℤ n m ≡ true) ms

-- No index stands before a smaller one.
abbrev pub IsSorted : List ℤ → Type 0
IsSorted [] = Unit
IsSorted (n ∷ ns) = IsBelow n ns × IsSorted ns

leb_ℤ_trans : (a b c : ℤ) → leb_ℤ a b ≡ true → leb_ℤ b c ≡ true → leb_ℤ a c ≡ true
leb_ℤ_trans (pos a) (pos b) (pos c) h k = ground arith
leb_ℤ_trans (pos a) (pos b) (negsuc c) h k = ground arith
leb_ℤ_trans (pos a) (negsuc b) c h k = cc
leb_ℤ_trans (negsuc a) (pos b) (pos c) h k = refl
leb_ℤ_trans (negsuc a) (pos b) (negsuc c) h k = cc
leb_ℤ_trans (negsuc a) (negsuc b) (pos c) h k = refl
leb_ℤ_trans (negsuc a) (negsuc b) (negsuc c) h k = ground arith

leb_ℤ_total : (a b : ℤ) → leb_ℤ a b ≡ false → leb_ℤ b a ≡ true
leb_ℤ_total (pos a) (pos b) h = ground arith
leb_ℤ_total (pos a) (negsuc b) h = refl
leb_ℤ_total (negsuc a) (pos b) h = cc
leb_ℤ_total (negsuc a) (negsuc b) h = ground arith

IsBelow-trans : (a b : ℤ) (ms : List ℤ) → leb_ℤ a b ≡ true → IsBelow b ms → IsBelow a ms
IsBelow-trans a b [] h k = tt
IsBelow-trans a b (m ∷ ms) h (p, k) = (leb_ℤ_trans a b m h p, IsBelow-trans a b ms h k)

IsBelow-insert_sorted :
    (a n : ℤ) (ms : List ℤ) → leb_ℤ a n ≡ true → IsBelow a ms → IsBelow a (insert_sorted n ms)
unfolding insert_sorted
IsBelow-insert_sorted a n [] h k = (h, tt)
IsBelow-insert_sorted a n (m ∷ ms) h (p, k) = elim (Bool-cases (leb_ℤ n m)) [
  | inl first ↦ rw first (h, (p, k))
  | inr later ↦ rw later (p, IsBelow-insert_sorted a n ms h k)
]

insert_sorted-IsSorted : (n : ℤ) (ms : List ℤ) → IsSorted ms → IsSorted (insert_sorted n ms)
unfolding insert_sorted
insert_sorted-IsSorted n [] h = (tt, tt)
insert_sorted-IsSorted n (m ∷ ms) (p, h) = elim (Bool-cases (leb_ℤ n m)) [
  | inl first ↦ rw first ((first, IsBelow-trans n m ms first p), (p, h))
  | inr later ↦
      rw later
        (IsBelow-insert_sorted m n ms (leb_ℤ_total n m later) p, insert_sorted-IsSorted n ms h)
]

module _ {V : Type 0} where
  index_keys-IsSorted : (d : Dict Text V) → IsSorted (index_keys d)
  unfolding index_keys
  index_keys-IsSorted [] = tt
  index_keys-IsSorted ((k, v) ∷ d) = add_key_lem (parse_int k) d (index_keys-IsSorted d)
    where
      add_key_lem :
          (p : Parsed) (d : Dict Text V)
          → IsSorted (index_keys d)
          → IsSorted (elim p [ good n ↦ insert_sorted n (index_keys d) | _ ↦ index_keys d ])
      add_key_lem (good n) d h = insert_sorted-IsSorted n (index_keys d) h
      add_key_lem (out_of_range n) d h = h
      add_key_lem bad_syntax d h = h

abbrev index_of : KeySlot → ℤ
index_of k = k.index

map-append : (f : KeySlot → ℤ) (xs ys : List KeySlot) → map f (xs ++ ys) ≡ map f xs ++ map f ys
map-append f [] ys = refl
map-append f (x ∷ xs) ys = ap (◌∷◌ (f x)) (map-append f xs ys)

add_slots-index :
    (hdr : Luks2Header) (is : List ℤ) (d : LuksDetails)
    → map index_of (add_slots hdr is d).key_slots ≡ map index_of d.key_slots ++ is
unfolding add_slots add_slot
add_slots-index hdr [] d = sym (append-nil (map index_of d.key_slots))
add_slots-index hdr (i ∷ is) d =
    add_slots-index hdr is (add_slot hdr i d)
    ∙ (ap (λ xs. xs ++ is) (map-append index_of d.key_slots _)
        ∙ append_assoc (map index_of d.key_slots) (i ∷ []) is)

-- A LUKS2 header adds one keyslot for each of its keys that is a number, and those in the order of
-- the numbers, behind the keyslots that are there.
pub parse_luks2-IsSorted :
    (d : LuksDetails) (hdr : Luks2Header)
    → (map (λ k. k.index) (parse_luks2 d hdr).key_slots
        ≡ map (λ k. k.index) d.key_slots ++ sorted_indexes hdr.keyslots)
      × IsSorted (sorted_indexes hdr.keyslots)
unfolding parse_luks2 sorted_indexes
parse_luks2-IsSorted d hdr =
    (add_slots-index hdr (index_keys hdr.keyslots) d, index_keys-IsSorted hdr.keyslots)
