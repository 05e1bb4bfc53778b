-- ===== src/Api/Operate.antt =====
-- internal/api/api.go: the handlers `unlockVault`, `lockVault`, `mountVault`, `deleteVault`,
-- `vaultDetails` and `listVaults`. The answer of the rate limiter comes as an argument, and so do
-- the path's id and the decoded body, `none` where it cannot be decoded. The record is looked up
-- before `opMu` is taken: an answer is whatever the database and the system say at that time.
pub mod Windows
pub mod Attempts
pub mod Removal
use lukscrypt.Prelude.{Text, Bool, Option, none, some, List, [], ◌∷◌, text, if◌then◌else◌}
use lukscrypt.Prelude.Int.{ℤ, pos}
use lukscrypt.Sys.{
  Vault, Res, ok, err, Prog, give, ask, ◌>>=◌, ◌>>◌, by_context, always, read_mounts, list_vaults,
  delete_record, track, untrack,
}
use lukscrypt.Vault.Mounts.{is_unlocked}
use lukscrypt.Vault.Access.{
  unlock_context, unlock_key_file_context, lock_context, mount_vault, delete,
}
use lukscrypt.Vault.Header.{LuksDetails, Luks2Header, dump_details}
use lukscrypt.Api.Input.{parse_id}
use lukscrypt.Api.Reply.{
  Reply, done, refusal, VaultResponse, to_response, with_vault, Credential, passphrase, key_file,
  choose,
}

with_parsed : {A : Type 0} → (ℤ → Prog (Reply A)) → Option ℤ → Prog (Reply A)
with_parsed k (some n) = k n
with_parsed k none = give (refusal 400 (text "invalid vault id"))

-- The id of the path, or the reply that it is none.
unfoldable pub with_id : {A : Type 0} → Text → (ℤ → Prog (Reply A)) → Prog (Reply A)
unfolding with_parsed parse_id
with_id id k = with_parsed k (parse_id id)

unfoldable pub show_vault : Vault → Prog (Reply VaultResponse)
unfolding to_response
show_vault v = do mounts ← ask read_mounts; r ← to_response v mounts; give (done r)

pub record UnlockRequest : Type 0 where
  pub password : Text
  pub key_file : Text

unfoldable pub unlock_credential : Vault → Credential → Prog (Option Text)
unfolding unlock_context unlock_key_file_context
unlock_credential v (passphrase p) = unlock_context by_context v p
unlock_credential v (key_file k) = unlock_key_file_context by_context v k

-- Under `opMu`.
unfoldable pub unlock_locked : Credential → Vault → Prog (Reply VaultResponse)
unfolding unlock_credential show_vault
unlock_locked c v = do
  e ← unlock_credential v c
  elim e [ some e ↦ give (refusal 422 e) | none ↦ do ask (track (pos v.id)); show_vault v ]

unlock_with_credential : ℤ → Res Credential → Prog (Reply VaultResponse)
unfolding with_vault unlock_locked
unlock_with_credential id (err e) = give (refusal 400 e)
unlock_with_credential id (ok c) = with_vault id (unlock_locked c)

unlock_body : (decode : Text → Option Text) → ℤ → Option UnlockRequest → Prog (Reply VaultResponse)
unfolding unlock_with_credential choose
unlock_body decode id none = give (refusal 400 (text "invalid request body"))
unlock_body decode id (some r) = unlock_with_credential id (choose decode 8 r.password r.key_file)

unfoldable pub unlock_vault :
    (decode : Text → Option Text)
    → (allowed : Bool) → (id : Text) → Option UnlockRequest
    → Prog (Reply VaultResponse)
unfolding unlock_body with_id
unlock_vault decode allowed id body =
    if allowed
    then with_id id (λ n. unlock_body decode n body)
    else give (refusal 429 (text "too many unlock attempts — wait before trying again"))

unfoldable pub lock_locked : Vault → Prog (Reply VaultResponse)
unfolding lock_context show_vault
lock_locked v = do
  e ← lock_context always v
  elim e [ some e ↦ give (refusal 422 e) | none ↦ do ask (untrack (pos v.id)); show_vault v ]

unfoldable pub lock_vault : (id : Text) → Prog (Reply VaultResponse)
unfolding with_id with_vault lock_locked
lock_vault id = with_id id λ n. with_vault n lock_locked

unfoldable pub mount_locked : Vault → Prog (Reply VaultResponse)
unfolding mount_vault show_vault
mount_locked v = do
  e ← mount_vault v
  elim e [ some e ↦ give (refusal 422 e) | none ↦ show_vault v ]

unfoldable pub mount : (id : Text) → Prog (Reply VaultResponse)
unfolding with_id with_vault mount_locked
mount id = with_id id λ n. with_vault n mount_locked

-- The record goes first; that the files cannot be removed is only logged.
unfoldable pub remove_vault : ℤ → Vault → Prog (Reply (Unit {0}))
unfolding delete
remove_vault id v = do
  e ← ask (delete_record id)
  elim e [
    | some _ ↦ give (refusal 500 (text "failed to remove vault record"))
    | none ↦ do ask (untrack id); delete v; give (done tt)
  ]

unfoldable pub delete_locked : ℤ → Vault → Prog (Reply (Unit {0}))
unfolding is_unlocked remove_vault
delete_locked id v = do
  unlocked ← is_unlocked v
  if unlocked
      then give (refusal 422 (text "vault must be locked before deletion"))
      else remove_vault id v

unfoldable pub delete_vault : (id : Text) → Prog (Reply (Unit {0}))
unfolding with_id with_vault delete_locked
delete_vault id = with_id id λ n. with_vault n (delete_locked n)

show_details : (unmarshal : Text → Res Luks2Header) → Vault → Prog (Reply LuksDetails)
unfolding dump_details
show_details unmarshal v = do
  d ← dump_details unmarshal v
  elim d [ ok d ↦ give (done d) | err e ↦ give (refusal 422 e) ]

unfoldable pub vault_details :
    (unmarshal : Text → Res Luks2Header) → (id : Text) → Prog (Reply LuksDetails)
unfolding with_id with_vault show_details
vault_details unmarshal id = with_id id λ n. with_vault n (show_details unmarshal)

show_each : (mounts : Text) → List Vault → Prog (List VaultResponse)
unfolding to_response
show_each mounts [] = give []
show_each mounts (v ∷ vs) = do r ← to_response v mounts; rs ← show_each mounts vs; give (r ∷ rs)

-- `/proc/mounts` is read once for all.
unfoldable pub list : Prog (Reply (List VaultResponse))
unfolding show_each
list = do
  vaults ← ask list_vaults
  elim vaults [
    | err _ ↦ give (refusal 500 (text "failed to list vaults"))
    | ok vs ↦ do mounts ← ask read_mounts; rs ← show_each mounts vs; give (done rs)
  ]
