-- ===== src/Api/Keyslots/Attempts.antt =====
-- How often changing keyslots through the API tries a credential.
use lukscrypt.Prelude.{ℕ, Text, true, Option, none, some}
use lukscrypt.Prelude.Int.{ℤ, pos}
use lukscrypt.Sys.{Vault, Res, ok, err}
use lukscrypt.Sys.Attempts.{AtMost, AtMost-bind}
use lukscrypt.Vault.Header.{LuksDetails, Luks2Header, dump_details}
use lukscrypt.Vault.Header.Attempts.{dump_details-AtMost}
use lukscrypt.Vault.Keys.{validate_kill_slot}
use lukscrypt.Vault.Keys.Attempts.{
  add_key-AtMost, add_key_file-AtMost, kill_slot-AtMost, kill_slot_key_file-AtMost,
}
use lukscrypt.Api.Reply.{Credential, passphrase, key_file, choose}
use lukscrypt.Api.Reply.Attempts.{with_vault-AtMost}
use lukscrypt.Api.Operate.Attempts.{with_id-AtMost}
use lukscrypt.Api.Keyslots.{
  AddRequest, RemoveRequest, Addition, slot_in_range, check_addition, add_with, reread, add_locked,
  add_checked, add_body, keyslot_add, kill_with, kill_checked, judge_verdict, judge_removal,
  remove_locked, remove_checked, remove_slot, remove_body, keyslot_remove,
}

add_with-AtMost :
    (v : Vault) (existing new_key : Credential) (slot : ℤ)
    → AtMost 1 (add_with v existing new_key slot)
unfolding add_with
add_with-AtMost v (passphrase p) (passphrase q) slot = add_key-AtMost v p q slot
add_with-AtMost v (passphrase p) (key_file k) slot = add_key_file-AtMost v p k slot
add_with-AtMost v (key_file k) (passphrase q) slot = add_key_file-AtMost v k q slot
add_with-AtMost v (key_file k) (key_file l) slot = add_key_file-AtMost v k l slot

kill_with-AtMost : (v : Vault) (c : Credential) (slot : ℕ) → AtMost 1 (kill_with v c slot)
unfolding kill_with
kill_with-AtMost v (passphrase p) slot = kill_slot-AtMost v p slot
kill_with-AtMost v (key_file k) slot = kill_slot_key_file-AtMost v k slot

module _ (unmarshal : Text → Res Luks2Header) where
  reread-AtMost : (failed : Text) (v : Vault) → AtMost 0 (reread unmarshal failed v)
  unfolding reread
  reread-AtMost failed v =
      AtMost-bind 0 0 (dump_details unmarshal v) _ (dump_details-AtMost unmarshal v)
        elim [ ok d ↦ tt | err e ↦ tt ]

  add_locked-AtMost : (a : Addition) (v : Vault) → AtMost 1 (add_locked unmarshal a v)
  unfolding add_locked
  add_locked-AtMost a v =
      AtMost-bind 1 0 (add_with v a.existing a.new_key a.slot) _
        (add_with-AtMost v a.existing a.new_key a.slot)
        elim [ some e ↦ tt | none ↦ reread-AtMost _ v ]

  add_checked-AtMost : (id : ℤ) (a : Res Addition) → AtMost 1 (add_checked unmarshal id a)
  unfolding add_checked
  add_checked-AtMost id (err e) = tt
  add_checked-AtMost id (ok a) = with_vault-AtMost (add_locked unmarshal a) (add_locked-AtMost a) id

  pub kill_checked-AtMost :
      (c : Credential) (slot : ℕ) (v : Vault) → AtMost 1 (kill_checked unmarshal c slot v)
  unfolding kill_checked
  kill_checked-AtMost c slot v =
      AtMost-bind 1 0 (kill_with v c slot) _ (kill_with-AtMost v c slot)
        elim [ some e ↦ tt | none ↦ reread-AtMost _ v ]

  judge_verdict-AtMost :
      (c : Credential) (slot : ℕ) (v : Vault) (verdict : Option Text)
      → AtMost 1 (judge_verdict unmarshal c slot v verdict)
  unfolding judge_verdict
  judge_verdict-AtMost c slot v (some e) = tt
  judge_verdict-AtMost c slot v none = kill_checked-AtMost c slot v

  judge_removal-AtMost :
      (c : Credential) (slot : ℕ) (v : Vault) (d : Res LuksDetails)
      → AtMost 1 (judge_removal unmarshal c slot v d)
  unfolding judge_removal
  judge_removal-AtMost c slot v (err e) = tt
  judge_removal-AtMost c slot v (ok d) =
      judge_verdict-AtMost c slot v (validate_kill_slot d (pos slot))

  remove_locked-AtMost :
      (c : Credential) (slot : ℕ) (v : Vault) → AtMost 1 (remove_locked unmarshal c slot v)
  unfolding remove_locked
  remove_locked-AtMost c slot v =
      AtMost-bind 0 1 (dump_details unmarshal v) (judge_removal unmarshal c slot v)
        (dump_details-AtMost unmarshal v) (judge_removal-AtMost c slot v)

  remove_checked-AtMost :
      (id : ℤ) (slot : ℕ) (c : Res Credential) → AtMost 1 (remove_checked unmarshal id slot c)
  unfolding remove_checked
  remove_checked-AtMost id slot (err e) = tt
  remove_checked-AtMost id slot (ok c) =
      with_vault-AtMost (remove_locked unmarshal c slot) (remove_locked-AtMost c slot) id

  module _ (decode : Text → Option Text) where
    remove_slot-AtMost :
        (id : ℤ) (r : RemoveRequest) (slot : Option ℕ)
        → AtMost 1 (remove_slot unmarshal decode id r slot)
    unfolding remove_slot
    remove_slot-AtMost id r none = tt
    remove_slot-AtMost id r (some slot) =
        remove_checked-AtMost id slot (choose decode 0 r.password r.key_file)

    add_body-AtMost : (id : ℤ) (r : Option AddRequest) → AtMost 1 (add_body unmarshal decode id r)
    unfolding add_body
    add_body-AtMost id none = tt
    add_body-AtMost id (some r) = add_checked-AtMost id (check_addition decode r)

    remove_body-AtMost :
        (id : ℤ) (r : Option RemoveRequest) → AtMost 1 (remove_body unmarshal decode id r)
    unfolding remove_body
    remove_body-AtMost id none = tt
    remove_body-AtMost id (some r) = remove_slot-AtMost id r (slot_in_range r.key_slot)

    pub keyslot_add-AtMost :
        (id : Text) (r : Option AddRequest) → AtMost 1 (keyslot_add unmarshal decode true id r)
    unfolding keyslot_add
    keyslot_add-AtMost id r =
        with_id-AtMost (λ n. add_body unmarshal decode n r) (λ n. add_body-AtMost n r) id

    pub keyslot_remove-AtMost :
        (id : Text) (r : Option RemoveRequest)
        → AtMost 1 (keyslot_remove unmarshal decode true id r)
    unfolding keyslot_remove
    keyslot_remove-AtMost id r =
        with_id-AtMost (λ n. remove_body unmarshal decode n r) (λ n. remove_body-AtMost n r) id
