-- ===== src/Api/Reply.antt =====
-- internal/api/api.go: what the handlers reply, `toResponse`, `lookupVault`, and the checks of
-- credentials that the handlers share. A reply is its value or its status and message; the JSON
-- around them is not modelled.
pub mod Quiet
pub mod Attempts
use lukscrypt.Prelude.{
  ℕ, Text, Bool, true, false, Option, none, some, text, is_empty, length, ltb, if◌then◌else◌,
}
use lukscrypt.Prelude.Int.{ℤ, pos}
use lukscrypt.Sys.{Vault, Res, ok, err, Prog, give, ask, ◌>>=◌, find_vault}
use lukscrypt.Vault.Mounts.{Status, status_in}
use lukscrypt.Vault.Disk.{disk_usage}
use lukscrypt.Api.Input.{decode_key_file}

pub data Reply (A : Type 0) : Type 0 where
  done : A → Reply A
  refusal : (status : ℕ) → Text → Reply A

-- `vaultResponse`
pub record VaultResponse : Type 0 where
  pub vault : Vault
  pub unlocked : Bool
  pub mounted : Bool
  pub disk_used_bytes : ℤ
  pub disk_total_bytes : ℤ

add_usage : (mounted : Bool) → Text → VaultResponse → Prog VaultResponse
unfolding disk_usage
add_usage false mount_point resp = give resp
add_usage true mount_point resp = do
  u ← disk_usage mount_point
  give (record resp { disk_used_bytes = u.0; disk_total_bytes = u.1 })

abbrev pub as_response : Vault → Status → VaultResponse
as_response v st = record {
  vault = v;
  unlocked = st.unlocked;
  mounted = st.mounted;
  disk_used_bytes = pos 0;
  disk_total_bytes = pos 0;
}

unfoldable pub to_response : Vault → (mounts : Text) → Prog VaultResponse
unfolding status_in add_usage
to_response v mounts = do
  st ← status_in v mounts
  add_usage st.mounted v.mount_point (as_response v st)

with_found : {A : Type 0} → (Vault → Prog (Reply A)) → Res (Option Vault) → Prog (Reply A)
with_found k (ok (some v)) = k v
with_found k (ok none) = give (refusal 404 (text "vault not found"))
with_found k (err _) = give (refusal 500 (text "database error"))

-- The handler goes on only if the vault is there.
unfoldable pub with_vault : {A : Type 0} → ℤ → (Vault → Prog (Reply A)) → Prog (Reply A)
unfolding with_found
with_vault id k = ask (find_vault id) >>= with_found k

abbrev pub too_many : {A : Type 0} → Prog (Reply A)
too_many = give (refusal 429 (text "too many attempts — wait before trying again"))

-- What proves the authority over a vault.
pub data Credential : Type 0 where
  passphrase : Text → Credential
  key_file : Text → Credential

abbrev pub same : Bool → Bool → Bool
same true b = b
same false true = false
same false false = true

-- Exactly one of the two fields is given; a keyfile is decoded, and a passphrase has a length.
unfoldable pub choose :
    (decode : Text → Option Text) → (min_length : ℕ) → (password key_file : Text) → Res Credential
choose decode min_length password b64 =
    if same (is_empty password) (is_empty b64)
    then err (text "provide either password or key_file (not both)")
    else if is_empty b64
    then (if ltb (length password) min_length
        then err (text "password must be at least 8 characters")
        else ok (passphrase password))
    else elim (decode_key_file decode b64) [ ok key ↦ ok (key_file key) | err e ↦ err e ]
