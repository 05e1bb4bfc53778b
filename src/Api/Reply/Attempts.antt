-- ===== src/Api/Reply/Attempts.antt =====
-- Looking a vault up and showing it try no credential.
use lukscrypt.Prelude.{Text, Bool, true, false, Option, none, some, refl}
use lukscrypt.Prelude.Int.{ℤ}
use lukscrypt.Sys.{Vault, Res, ok, err, Prog}
use lukscrypt.Sys.Attempts.{AtMost, AtMost-bind}
use lukscrypt.Vault.Mounts.{status_in}
use lukscrypt.Vault.Disk.{disk_usage}
use lukscrypt.Vault.Access.Attempts.{status_in-AtMost, disk_usage-AtMost}
use lukscrypt.Api.Reply.{
  Reply, VaultResponse, as_response, add_usage, to_response, with_found, with_vault,
}

add_usage-AtMost :
    (mounted : Bool) (mount_point : Text) (resp : VaultResponse)
    → AtMost 0 (add_usage mounted mount_point resp)
unfolding add_usage
add_usage-AtMost false mount_point resp = tt
add_usage-AtMost true mount_point resp =
    AtMost-bind 0 0 (disk_usage mount_point) _ (disk_usage-AtMost mount_point) λ u. tt

pub to_response-AtMost : (v : Vault) (mounts : Text) → AtMost 0 (to_response v mounts)
unfolding to_response
to_response-AtMost v mounts =
    AtMost-bind 0 0 (status_in v mounts) _ (status_in-AtMost v mounts)
      λ st. add_usage-AtMost st.mounted v.mount_point (as_response v st)

module _ {A : Type 0} (k : Vault → Prog (Reply A)) (h : (v : Vault) → AtMost 1 (k v)) where
  with_found-AtMost : (found : Res (Option Vault)) → AtMost 1 (with_found k found)
  unfolding with_found
  with_found-AtMost (ok (some v)) = h v
  with_found-AtMost (ok none) = tt
  with_found-AtMost (err e) = tt

  pub with_vault-AtMost : (id : ℤ) → AtMost 1 (with_vault id k)
  unfolding with_vault
  with_vault-AtMost id = (refl, with_found-AtMost)
