-- ===== src/Api/Keyslots/Kill.antt =====
-- When a keyslot is removed.
use lukscrypt.Prelude.{
  ℕ, ◌+◌, ◌≤◌, Text, Bool, true, false, Option, none, some, ◌≡◌, refl, ◌⊎◌, inl, inr, arith, length,
  List, [], ◌∷◌, Any, text, text_eq, text_beq_iff, Bool-cases, ◌&&◌, subst, sym,
}
use lukscrypt.Prelude.Int.{ℤ, pos}
use lukscrypt.Sys.{Vault, Call, Answer, Res, ok, err, ◌>>=◌}
use lukscrypt.Sys.Ensures.{run, run-bind, run-Ensures}
use lukscrypt.Sys.Attempts.{AtMost-Ensures, count}
use lukscrypt.Vault.Header.{KeySlot, LuksDetails, Luks2Header, dump_details}
use lukscrypt.Vault.Header.Attempts.{dump_details-AtMost}
use lukscrypt.Vault.Keys.{is_valid, same_index, validate_kill_slot}
use lukscrypt.Vault.Keys.Slots.{is_listed, valid_slots, same_index_eq, validate_kill_slot_iff}
use lukscrypt.Api.Reply.{Reply, done, refusal, Credential}
use lukscrypt.Api.Keyslots.{kill_checked, judge_verdict, judge_removal, remove_locked}
use lukscrypt.Api.Keyslots.Attempts.{kill_checked-AtMost}

abbrev pub is_done : {A : Type 0} → Reply A → Bool
is_done (done a) = true
is_done (refusal status e) = false

-- What the dump says of a slot that holds a key: LUKS1 and LUKS2 have a word each.
abbrev pub IsInUse : KeySlot → Type 0
IsInUse k = (k.status ≡ text "valid") ⊎ (k.status ≡ text "enabled")

-- At two positions of the list at least.
abbrev pub HasTwo : {A : Type 0} → (A → Type 0) → List A → Type 0
HasTwo P [] = ⊥
HasTwo P (x ∷ xs) = (P x × Any P xs) ⊎ HasTwo P xs

is_valid-IsInUse : (k : KeySlot) → is_valid k ≡ true → IsInUse k
unfolding is_valid
is_valid-IsInUse k h =
    ground (arith, text_beq_iff k.status (text "valid"), text_beq_iff k.status (text "enabled"))

is_listed-Any :
    (slot : ℤ) (ks : List KeySlot)
    → is_listed slot ks ≡ true
    → Any (λ k. IsInUse k × (k.index ≡ slot)) ks
is_listed-Any slot [] h = cc
is_listed-Any slot (k ∷ ks) h = elim (Bool-cases (is_valid k && same_index k.index slot)) [
  | inl both ↦ inl (is_valid-IsInUse k (ground arith), same_index_eq k.index slot (ground arith))
  | inr other ↦ inr (is_listed-Any slot ks (ground arith))
]

valid_slots-Any : (ks : List KeySlot) → 1 ≤ length (valid_slots ks) → Any IsInUse ks
valid_slots-Any [] h = absurd (omega arith)
valid_slots-Any (k ∷ ks) h = elim (Bool-cases (is_valid k)) [
  | inl yes' ↦ inl (is_valid-IsInUse k yes')
  | inr no' ↦ inr (valid_slots-Any ks (rw no' at h))
]

valid_slots-HasTwo : (ks : List KeySlot) → 2 ≤ length (valid_slots ks) → HasTwo IsInUse ks
valid_slots-HasTwo [] h = absurd (omega arith)
valid_slots-HasTwo (k ∷ ks) h = elim (Bool-cases (is_valid k)) [
  | inl yes' ↦ inl (is_valid-IsInUse k yes', valid_slots-Any ks (ground (arith, yes', h)))
  | inr no' ↦ inr (valid_slots-HasTwo ks (rw no' at h))
]

-- No command was run and the request was refused, or the details that were looked at list the slot
-- as one in use, and two slots in use at least.
abbrev pub IsSafeRemoval : ℕ → Res LuksDetails → Reply LuksDetails → ℕ → Type 0
IsSafeRemoval slot looked reply commands =
    ((commands ≡ 0) × (is_done reply ≡ false))
    ⊎ ((commands ≤ 1)
        × (d : LuksDetails) × (looked ≡ ok d)
        × Any (λ k. IsInUse k × (k.index ≡ pos slot)) d.key_slots
        × HasTwo IsInUse d.key_slots)

module _ {W : Type 0} (answer : (c : Call) → W → Answer c × W) (unmarshal : Text → Res Luks2Header)
    (c : Credential) (slot : ℕ) (v : Vault) where
  verdict_lem :
      (d : LuksDetails) (verdict : Option Text) (w : W)
      → validate_kill_slot d (pos slot) ≡ verdict
      → let (reply, _, n) = run answer count (judge_verdict unmarshal c slot v verdict) w 0 in
        IsSafeRemoval slot (ok d) reply n
  unfolding judge_verdict
  verdict_lem d (some e) w h = inl (refl, refl)
  verdict_lem d none w h =
      let (listed, two) = (validate_kill_slot_iff d (pos slot)).0 h in
      let once =
        run-Ensures answer count (λ n _. n ≤ 0 + 1) (kill_checked unmarshal c slot v) w 0
          (AtMost-Ensures 1 0 (kill_checked unmarshal c slot v)
            (kill_checked-AtMost unmarshal c slot v)) in
      inr (
        omega (arith, once),
        d,
        refl,
        is_listed-Any (pos slot) d.key_slots listed,
        valid_slots-HasTwo d.key_slots two,
      )

  judged_lem :
      (looked : Res LuksDetails) (w : W)
      → let (reply, _, n) = run answer count (judge_removal unmarshal c slot v looked) w 0 in
        IsSafeRemoval slot looked reply n
  unfolding judge_removal
  judged_lem (err e) w = inl (refl, refl)
  judged_lem (ok d) w = verdict_lem d (validate_kill_slot d (pos slot)) w refl

  remove_locked_lem :
      remove_locked unmarshal c slot v
      ≡ dump_details unmarshal v >>= judge_removal unmarshal c slot v
  unfolding remove_locked
  remove_locked_lem = refl

-- A removal under the lock, against any system that answers its calls: either it runs no command
-- that takes a credential and is refused, or it runs at most one, and the header as read just before
-- lists the slot with the status "valid" or "enabled", and at least two slots with one of these.
pub remove_locked-IsSafeRemoval :
    {W : Type 0} (answer : (c : Call) → W → Answer c × W) (unmarshal : Text → Res Luks2Header)
    (c : Credential) (slot : ℕ) (v : Vault) (w : W)
    → let (looked, _, _) = run answer count (dump_details unmarshal v) w 0 in
      let (reply, _, n) = run answer count (remove_locked unmarshal c slot v) w 0 in
      IsSafeRemoval slot looked reply n
remove_locked-IsSafeRemoval answer unmarshal c slot v w =
    let look = dump_details unmarshal v in
    let judge = judge_removal unmarshal c slot v in
    let (looked, w', n) = run answer count look w 0 in
    let free : n ≡ 0 = omega (
      arith,
      run-Ensures answer count (λ n' _. n' ≤ 0 + 0) look w 0
          (AtMost-Ensures 0 0 look (dump_details-AtMost unmarshal v)),
    ) in
    let judged =
      subst
        (λ k.
          IsSafeRemoval slot looked (run answer count (judge looked) w' k).0
            (run answer count (judge looked) w' k).2)
        (sym free) (judged_lem answer unmarshal c slot v looked w') in
    rw (remove_locked_lem answer unmarshal c slot v, run-bind answer count look judge w 0) judged
