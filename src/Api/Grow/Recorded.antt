-- ===== src/Api/Grow/Recorded.antt =====
-- The order of a growth and its record.
use lukscrypt.Prelude.{
  ℕ, Bool, true, false, Option, none, some, ◌≡◌, refl, ◌⊎◌, inl, inr, leb, subst, sym,
}
use lukscrypt.Prelude.Int.{ℤ}
use lukscrypt.Sys.{Vault, Call, Answer, Res, ok, err}
use lukscrypt.Sys.Ensures.{Ensures, Ensures-bind, Ensures-if}
use lukscrypt.Sys.Quiet.{both, IsBlind, Ensures-both, Ensures-quiet}
use lukscrypt.Vault.Mounts.{mounted_in, is_unlocked, is_mounted}
use lukscrypt.Vault.Resize.{grow}
use lukscrypt.Vault.Resize.Quiet.{grow-IsQuiet}
use lukscrypt.Vault.Resize.Steps.{Layers, untouched, IsGrownFrom, grow-IsGrown}
use lukscrypt.Vault.Resize.Steps
use lukscrypt.Api.Reply.Quiet.{to_response-IsQuiet}
use lukscrypt.Api.Reply.{Reply, done, refusal, VaultResponse, to_response}
use lukscrypt.Api.Grow.{
  Growth, show_updated, record_size, grow_and_record, grow_mounted, grow_unlocked, grow_fresh,
  grow_found, grow_locked,
}

-- The last size that the database recorded without an error, with the layers that were grown at that moment.
pub data Recorded : Type 0 where
  unrecorded : Recorded
  recorded : ℤ → ℕ → Layers → Recorded

abbrev pub next_size : (c : Call) → Answer c → Layers → Recorded → Recorded
next_size (Call.update_size id g) none l w = recorded id g l
next_size _ r l w = w

abbrev pub next : (c : Call) → Answer c → Layers × Recorded → Layers × Recorded
next = both Steps.next next_size

next_size-IsBlind : IsBlind Steps.next next_size
next_size-IsBlind = elim [ Call.update_size id g ↦ λ r s t e. cc | _ ↦ λ r s t e. refl ]

-- The size was recorded when image, device and filesystem had been grown, each after the one below.
abbrev pub IsRecorded : ℤ → ℕ → Recorded → Type 0
IsRecorded id size_gb w =
    (l : Layers) × (w ≡ recorded id size_gb l)
    × (l.image ≡ true)
    × (l.device ≡ true)
    × (l.filesystem ≡ true)
    × (l.out_of_order ≡ false)

abbrev pub IsAccounted : ℤ → ℕ → Layers × Recorded → Reply VaultResponse → Type 0
IsAccounted id size_gb (l, w) (done r) = IsRecorded id size_gb w
IsAccounted id size_gb (l, w) (refusal status e) = (w ≡ unrecorded) ⊎ IsRecorded id size_gb w

module _ (id : ℤ) (g : Growth) where
  show_updated_lem :
      (found : Res (Option Vault)) (l : Layers) (w : Recorded)
      → IsRecorded id g.size_gb w
      → Ensures next (IsAccounted id g.size_gb) (l, w) (show_updated found)
  unfolding show_updated
  show_updated_lem (ok (some v)) l w k = λ m.
      Ensures-bind next (λ u _. Unit {0} × (u.1 ≡ w)) (IsAccounted id g.size_gb) (to_response v m) _
        _
        (Ensures-quiet Steps.next next_size next_size-IsBlind (to_response v m) l w
          (to_response-IsQuiet v m))
        λ u r e. subst (λ w'. IsRecorded id g.size_gb w') (sym e.1) k
  show_updated_lem (ok none) l w k = inr k
  show_updated_lem (err e) l w k = inr k

  record_size_lem :
      (l : Layers)
      → l.image ≡ true
      → l.device ≡ true
      → l.filesystem ≡ true
      → l.out_of_order ≡ false
      → Ensures next (IsAccounted id g.size_gb) (l, unrecorded) (record_size id g.size_gb)
  unfolding record_size
  record_size_lem l i d f o = elim [
    | some e ↦ inl refl
    | none ↦ λ found. show_updated_lem found l (recorded id g.size_gb l) (l, refl, i, d, f, o)
  ]

  grow_and_record_lem :
      (v : Vault)
      → Ensures next (IsAccounted id g.size_gb) (untouched, unrecorded) (grow_and_record id g v)
  unfolding grow_and_record
  grow_and_record_lem v =
      Ensures-bind next (λ u e. IsGrownFrom v.size_gb g.size_gb u.0 e × (u.1 ≡ unrecorded))
        (IsAccounted id g.size_gb) (grow v g.size_gb g.key) _ _
        (Ensures-both Steps.next next_size next_size-IsBlind (IsGrownFrom v.size_gb g.size_gb)
          (grow v g.size_gb g.key) untouched unrecorded (grow-IsQuiet v g.size_gb g.key)
          (grow-IsGrown v g.size_gb g.key))
        λ (l, w). elim [
          | some e ↦ λ k. inl k.1
          | none ↦ λ ((grown, _), e).
              subst
                (λ w'. Ensures next (IsAccounted id g.size_gb) (l, w') (record_size id g.size_gb))
                (sym e) (record_size_lem l grown.0 grown.1 grown.2 grown.3)
        ]

  grow_mounted_lem :
      (v : Vault)
      → Ensures next (IsAccounted id g.size_gb) (untouched, unrecorded) (grow_mounted id g v)
  unfolding grow_mounted
  grow_mounted_lem v =
      Ensures-if next (IsAccounted id g.size_gb) (leb g.size_gb v.size_gb) _
        (grow_and_record id g v) _ (λ _. inl refl) λ _. grow_and_record_lem v

  grow_unlocked_lem :
      (v : Vault) (b : Bool)
      → Ensures next (IsAccounted id g.size_gb) (untouched, unrecorded) (grow_unlocked id g v b)
  unfolding grow_unlocked is_mounted
  grow_unlocked_lem v false = inl refl
  grow_unlocked_lem v true = λ m.
      Ensures-if next (IsAccounted id g.size_gb) (mounted_in v.mount_point m) (grow_mounted id g v)
        _ _ (λ _. grow_mounted_lem v) λ _. inl refl

  grow_fresh_lem :
      (v : Vault)
      → Ensures next (IsAccounted id g.size_gb) (untouched, unrecorded) (grow_fresh id g v)
  unfolding grow_fresh is_unlocked is_mounted
  grow_fresh_lem v = elim [
    | ok n ↦ grow_unlocked_lem v true
    | err e ↦ λ m. grow_unlocked_lem v (mounted_in v.mount_point m)
  ]

  grow_found_lem :
      (found : Res (Option Vault))
      → Ensures next (IsAccounted id g.size_gb) (untouched, unrecorded) (grow_found id g found)
  unfolding grow_found
  grow_found_lem (ok (some v)) = grow_fresh_lem v
  grow_found_lem (ok none) = inl refl
  grow_found_lem (err e) = inl refl

-- Whatever the system and the database answer, a growth under the lock records a size only when the
-- image, the device and the filesystem have been grown, each after the one below it, and it records
-- the requested size for the requested vault; a growth is confirmed only after the database has
-- recorded it without an error.
pub grow_locked-IsAccounted :
    (id : ℤ) (g : Growth) (stale : Vault)
    → Ensures next (IsAccounted id g.size_gb) (untouched, unrecorded) (grow_locked id g stale)
unfolding grow_locked
grow_locked-IsAccounted id g stale = grow_found_lem id g
