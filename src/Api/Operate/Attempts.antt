-- ===== src/Api/Operate/Attempts.antt =====
-- How often unlocking through the API tries a credential.
use lukscrypt.Prelude.{length, Text, true, Option, none, some, refl}
use lukscrypt.Prelude.Int.{ℤ}
use lukscrypt.Sys.{Vault, by_context, Res, ok, err, Prog}
use lukscrypt.Sys.Attempts.{AtMost, AtMost-bind}
use lukscrypt.Vault.Access.Attempts.{unlock_with-AtMost}
use lukscrypt.Api.Input.{parse_id}
use lukscrypt.Api.Reply.{Reply, Credential, passphrase, key_file, choose, to_response}
use lukscrypt.Api.Reply.Attempts.{to_response-AtMost, with_vault-AtMost}
use lukscrypt.Api.Operate.{
  with_parsed, with_id, show_vault, UnlockRequest, unlock_credential, unlock_locked,
  unlock_with_credential, unlock_body, unlock_vault,
}

module _ {A : Type 0} (k : ℤ → Prog (Reply A)) (h : (i : ℤ) → AtMost 1 (k i)) where
  with_parsed-AtMost : (o : Option ℤ) → AtMost 1 (with_parsed k o)
  unfolding with_parsed
  with_parsed-AtMost (some n) = h n
  with_parsed-AtMost none = tt

  pub with_id-AtMost : (id : Text) → AtMost 1 (with_id id k)
  unfolding with_id
  with_id-AtMost id = with_parsed-AtMost (parse_id id)

show_vault-AtMost : (v : Vault) → AtMost 0 (show_vault v)
unfolding show_vault
show_vault-AtMost v =
    (refl, λ m. AtMost-bind 0 0 (to_response v m) _ (to_response-AtMost v m) λ r. tt)

unlock_credential-AtMost : (v : Vault) (c : Credential) → AtMost 1 (unlock_credential v c)
unfolding unlock_credential
unlock_credential-AtMost v (passphrase p) = unlock_with-AtMost by_context v p none
unlock_credential-AtMost v (key_file k) = unlock_with-AtMost by_context v k (some (length k))

unlock_locked-AtMost : (c : Credential) (v : Vault) → AtMost 1 (unlock_locked c v)
unfolding unlock_locked
unlock_locked-AtMost c v =
    AtMost-bind 1 0 (unlock_credential v c) _ (unlock_credential-AtMost v c)
      elim [ some e ↦ tt | none ↦ (refl, λ r. show_vault-AtMost v) ]

unlock_with_credential-AtMost :
    (id : ℤ) (c : Res Credential) → AtMost 1 (unlock_with_credential id c)
unfolding unlock_with_credential
unlock_with_credential-AtMost id (err e) = tt
unlock_with_credential-AtMost id (ok c) =
    with_vault-AtMost (unlock_locked c) (unlock_locked-AtMost c) id

unlock_body-AtMost :
    (decode : Text → Option Text) (id : ℤ) (r : Option UnlockRequest)
    → AtMost 1 (unlock_body decode id r)
unfolding unlock_body
unlock_body-AtMost decode id none = tt
unlock_body-AtMost decode id (some r) =
    unlock_with_credential-AtMost id (choose decode 8 r.password r.key_file)

pub unlock_vault-AtMost :
    (decode : Text → Option Text) (id : Text) (r : Option UnlockRequest)
    → AtMost 1 (unlock_vault decode true id r)
unfolding unlock_vault
unlock_vault-AtMost decode id r =
    with_id-AtMost (λ n. unlock_body decode n r) (λ n. unlock_body-AtMost decode n r) id
