-- ===== src/Api/Grow/Attempts.antt =====
-- How often growing through the API tries a credential.
use lukscrypt.Prelude.{ℕ, Text, Bool, true, false, Option, none, some, refl, leb}
use lukscrypt.Prelude.Int.{ℤ}
use lukscrypt.Sys.{Vault, Res, ok, err}
use lukscrypt.Sys.Attempts.{AtMost, AtMost-bind, AtMost-if}
use lukscrypt.Vault.Mounts.{mounted_in, is_unlocked, is_mounted}
use lukscrypt.Vault.Access.Attempts.{is_unlocked-AtMost}
use lukscrypt.Vault.Resize.{grow}
use lukscrypt.Vault.Resize.Attempts.{grow-AtMost}
use lukscrypt.Api.Reply.{to_response}
use lukscrypt.Api.Reply.Attempts.{to_response-AtMost, with_vault-AtMost}
use lukscrypt.Api.Operate.Attempts.{with_id-AtMost}
use lukscrypt.Api.Grow.{
  GrowRequest, Growth, check_growth, show_updated, record_size, grow_and_record, grow_mounted,
  grow_unlocked, grow_fresh, grow_found, grow_locked, grow_checked, grow_body, grow_vault,
}

show_updated-AtMost : (found : Res (Option Vault)) → AtMost 0 (show_updated found)
unfolding show_updated
show_updated-AtMost (ok (some v)) =
    (refl, λ m. AtMost-bind 0 0 (to_response v m) _ (to_response-AtMost v m) λ r. tt)
show_updated-AtMost (ok none) = tt
show_updated-AtMost (err e) = tt

record_size-AtMost : (id : ℤ) (size_gb : ℕ) → AtMost 0 (record_size id size_gb)
unfolding record_size
record_size-AtMost id size_gb = (refl, elim [ some e ↦ tt | none ↦ (refl, show_updated-AtMost) ])

module _ (id : ℤ) (g : Growth) where
  grow_mounted-AtMost : (v : Vault) → AtMost 1 (grow_mounted id g v)
  unfolding grow_mounted grow_and_record
  grow_mounted-AtMost v = AtMost-if 1 (leb g.size_gb v.size_gb) _ (grow_and_record id g v) tt (
      AtMost-bind 1 0 (grow v g.size_gb g.key) _ (grow-AtMost v g.size_gb g.key)
        elim [ some e ↦ tt | none ↦ record_size-AtMost id g.size_gb ])

  grow_unlocked-AtMost : (v : Vault) (b : Bool) → AtMost 1 (grow_unlocked id g v b)
  unfolding grow_unlocked is_mounted
  grow_unlocked-AtMost v false = tt
  grow_unlocked-AtMost v true = (
    refl,
    λ m.
        AtMost-if 1 (mounted_in v.mount_point m) (grow_mounted id g v) _ (grow_mounted-AtMost v) tt,
  )

  grow_found-AtMost : (found : Res (Option Vault)) → AtMost 1 (grow_found id g found)
  unfolding grow_found grow_fresh
  grow_found-AtMost (ok (some v)) =
      AtMost-bind 0 1 (is_unlocked v) (grow_unlocked id g v) (is_unlocked-AtMost v)
        (grow_unlocked-AtMost v)
  grow_found-AtMost (ok none) = tt
  grow_found-AtMost (err e) = tt

grow_checked-AtMost : (id : ℤ) (g : Res Growth) → AtMost 1 (grow_checked id g)
unfolding grow_checked grow_locked
grow_checked-AtMost id (err e) = tt
grow_checked-AtMost id (ok g) =
    with_vault-AtMost (grow_locked id g) (λ v. (refl, grow_found-AtMost id g)) id

grow_body-AtMost :
    (max_size_gb : ℕ) (decode : Text → Option Text) (id : ℤ) (r : Option GrowRequest)
    → AtMost 1 (grow_body max_size_gb decode id r)
unfolding grow_body
grow_body-AtMost max_size_gb decode id none = tt
grow_body-AtMost max_size_gb decode id (some r) =
    grow_checked-AtMost id (check_growth max_size_gb decode r)

pub grow_vault-AtMost :
    (max_size_gb : ℕ) (decode : Text → Option Text) (id : Text) (r : Option GrowRequest)
    → AtMost 1 (grow_vault max_size_gb decode true id r)
unfolding grow_vault
grow_vault-AtMost max_size_gb decode id r =
    with_id-AtMost (λ n. grow_body max_size_gb decode n r)
      (λ n. grow_body-AtMost max_size_gb decode n r) id
