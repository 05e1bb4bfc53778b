-- ===== src/Api/Keyslots.antt =====
-- internal/api/api.go: the handlers `keyslotAdd` and `keyslotRemove`. The answer of the rate
-- limiter, the path's id and the decoded body come as arguments, as for the other operations.
pub mod Kill
pub mod Attempts
use lukscrypt.Prelude.{
  ℕ, Text, Bool, Option, none, some, text, ◌++◌, not, ◌&&◌, is_empty, length, ltb, if◌then◌else◌,
}
use lukscrypt.Prelude.Int.{ℤ, pos, negsuc}
use lukscrypt.Sys.{Vault, Res, ok, err, Prog, give, ◌>>=◌}
use lukscrypt.Vault.Header.{LuksDetails, Luks2Header, dump_details}
use lukscrypt.Vault.Keys.{
  max_key_slot, add_key, add_key_file, kill_slot, kill_slot_key_file, validate_kill_slot,
}
use lukscrypt.Api.Input.{decode_key_file}
use lukscrypt.Api.Reply.{
  Reply, done, refusal, too_many, same, Credential, passphrase, key_file, choose, with_vault,
}
use lukscrypt.Api.Operate.{with_id}

pub record AddRequest : Type 0 where
  pub existing_password : Text
  pub existing_key_file : Text
  pub new_password : Text
  pub new_key_file : Text
  pub key_slot : Option ℤ

pub record RemoveRequest : Type 0 where
  pub password : Text
  pub key_file : Text
  pub key_slot : ℤ

-- What a checked request to add a keyslot asks for.
pub record Addition : Type 0 where
  pub existing : Credential
  pub new_key : Credential
  pub slot : ℤ

slot_in_range : ℤ → Option ℕ
slot_in_range (pos n) = if ltb max_key_slot n then none else some n
slot_in_range (negsuc n) = none

-- No slot stands for -1, which leaves the choice to cryptsetup.
wanted_slot : Option ℤ → Res ℤ
unfolding slot_in_range
wanted_slot none = ok (negsuc 0)
wanted_slot (some s) = elim (slot_in_range s) [
  | some n ↦ ok (pos n)
  | none ↦ err (text "key_slot must be between 0 and 31")
]

-- The uploaded keyfile, or the passphrase if there is none.
as_credential : (decode : Text → Option Text) → (password b64 : Text) → Res Credential
as_credential decode password b64 =
    if is_empty b64
    then ok (passphrase password)
    else elim (decode_key_file decode b64) [ ok key ↦ ok (key_file key) | err e ↦ err e ]

with_credentials : Credential → Res Credential → Option ℤ → Res Addition
unfolding wanted_slot
with_credentials new_key (err e) slot = err e
with_credentials new_key (ok existing) slot = elim (wanted_slot slot) [
  | err e ↦ err e
  | ok s ↦ ok (record { existing = existing; new_key = new_key; slot = s })
]

-- The new keyfile is decoded before the existing one.
check_credentials : (decode : Text → Option Text) → AddRequest → Res Addition
unfolding as_credential with_credentials
check_credentials decode r = elim (as_credential decode r.new_password r.new_key_file) [
  | err e ↦ err e
  | ok new_key ↦
      with_credentials new_key (as_credential decode r.existing_password r.existing_key_file)
        r.key_slot
]

unfoldable pub check_addition : (decode : Text → Option Text) → AddRequest → Res Addition
unfolding check_credentials
check_addition decode r =
    if same (is_empty r.existing_password) (is_empty r.existing_key_file)
    then err (text "provide either existing_password or existing_key_file (not both)")
    else if same (is_empty r.new_password) (is_empty r.new_key_file)
    then err (text "provide either new_password or new_key_file (not both)")
    else if not (is_empty r.new_password) && ltb (length r.new_password) 8
    then err (text "new_password must be at least 8 characters")
    else check_credentials decode r

abbrev bytes : Credential → Text
bytes (passphrase p) = p
bytes (key_file k) = k

-- Two passphrases go through standard input, any keyfile through a temporary file.
add_with : Vault → (existing new_key : Credential) → ℤ → Prog (Option Text)
unfolding add_key add_key_file
add_with v (passphrase p) (passphrase q) slot = add_key v p q slot
add_with v existing new_key slot = add_key_file v (bytes existing) (bytes new_key) slot

kill_with : Vault → Credential → ℕ → Prog (Option Text)
unfolding kill_slot kill_slot_key_file
kill_with v (passphrase p) slot = kill_slot v p slot
kill_with v (key_file k) slot = kill_slot_key_file v k slot

module _ (unmarshal : Text → Res Luks2Header) where
  -- The header after the change.
  reread : Text → Vault → Prog (Reply LuksDetails)
  unfolding dump_details
  reread failed v = do
    d ← dump_details unmarshal v
    elim d [ ok d ↦ give (done d) | err e ↦ give (refusal 500 (failed ++ e)) ]

  -- Under `opMu`.
  unfoldable pub add_locked : Addition → Vault → Prog (Reply LuksDetails)
  unfolding add_with reread
  add_locked a v = do
    e ← add_with v a.existing a.new_key a.slot
    elim e [
      | some e ↦ give (refusal 422 e)
      | none ↦ reread (text "keyslot added but failed to re-read header: ") v
    ]

  add_checked : ℤ → Res Addition → Prog (Reply LuksDetails)
  unfolding add_locked with_vault
  add_checked id (err e) = give (refusal 400 e)
  add_checked id (ok a) = with_vault id (add_locked a)

  add_body : (decode : Text → Option Text) → ℤ → Option AddRequest → Prog (Reply LuksDetails)
  unfolding add_checked check_addition
  add_body decode id none = give (refusal 400 (text "invalid request body"))
  add_body decode id (some r) = add_checked id (check_addition decode r)

  unfoldable pub keyslot_add :
      (decode : Text → Option Text)
      → (allowed : Bool) → (id : Text) → Option AddRequest
      → Prog (Reply LuksDetails)
  unfolding add_body with_id
  keyslot_add decode allowed id body =
      if allowed then with_id id (λ n. add_body decode n body) else too_many

  unfoldable pub kill_checked : Credential → ℕ → Vault → Prog (Reply LuksDetails)
  unfolding kill_with reread
  kill_checked c slot v = do
    e ← kill_with v c slot
    elim e [
      | some e ↦ give (refusal 422 e)
      | none ↦ reread (text "keyslot removed but failed to re-read header: ") v
    ]

  judge_verdict : Credential → ℕ → Vault → Option Text → Prog (Reply LuksDetails)
  unfolding kill_checked
  judge_verdict c slot v (some e) = give (refusal 409 e)
  judge_verdict c slot v none = kill_checked c slot v

  -- The header as it was just read decides.
  judge_removal : Credential → ℕ → Vault → Res LuksDetails → Prog (Reply LuksDetails)
  unfolding judge_verdict validate_kill_slot
  judge_removal c slot v (err e) = give (refusal 422 e)
  judge_removal c slot v (ok d) = judge_verdict c slot v (validate_kill_slot d (pos slot))

  unfoldable pub remove_locked : Credential → ℕ → Vault → Prog (Reply LuksDetails)
  unfolding judge_removal dump_details
  remove_locked c slot v = dump_details unmarshal v >>= judge_removal c slot v

  remove_checked : ℤ → ℕ → Res Credential → Prog (Reply LuksDetails)
  unfolding remove_locked with_vault
  remove_checked id slot (err e) = give (refusal 400 e)
  remove_checked id slot (ok c) = with_vault id (remove_locked c slot)

  -- A passphrase of any length may prove the authority here.
  remove_slot :
      (decode : Text → Option Text) → ℤ → RemoveRequest → Option ℕ → Prog (Reply LuksDetails)
  unfolding remove_checked choose
  remove_slot decode id r none = give (refusal 400 (text "key_slot must be between 0 and 31"))
  remove_slot decode id r (some slot) =
      remove_checked id slot (choose decode 0 r.password r.key_file)

  remove_body : (decode : Text → Option Text) → ℤ → Option RemoveRequest → Prog (Reply LuksDetails)
  unfolding slot_in_range remove_slot
  remove_body decode id none = give (refusal 400 (text "key_slot must be between 0 and 31"))
  remove_body decode id (some r) = remove_slot decode id r (slot_in_range r.key_slot)

  unfoldable pub keyslot_remove :
      (decode : Text → Option Text)
      → (allowed : Bool) → (id : Text) → Option RemoveRequest
      → Prog (Reply LuksDetails)
  unfolding remove_body with_id
  keyslot_remove decode allowed id body =
      if allowed then with_id id (λ n. remove_body decode n body) else too_many
