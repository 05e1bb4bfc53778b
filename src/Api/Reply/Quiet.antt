-- ===== src/Api/Reply/Quiet.antt =====
-- A response leaves the database and the handler's state alone.
use lukscrypt.Prelude.{Text, Bool, true, false}
use lukscrypt.Sys.{Vault}
use lukscrypt.Sys.Quiet.{IsQuiet, IsQuiet-bind}
use lukscrypt.Vault.Mounts.{status_in}
use lukscrypt.Vault.Disk.{disk_usage}
use lukscrypt.Vault.Access.Quiet.{status_in-IsQuiet, disk_usage-IsQuiet}
use lukscrypt.Api.Reply.{VaultResponse, as_response, add_usage, to_response}

add_usage-IsQuiet :
    (mounted : Bool) (mount_point : Text) (resp : VaultResponse)
    → IsQuiet (add_usage mounted mount_point resp)
unfolding add_usage
add_usage-IsQuiet false mount_point resp = tt
add_usage-IsQuiet true mount_point resp =
    IsQuiet-bind (disk_usage mount_point) _ (disk_usage-IsQuiet mount_point) λ u. tt

pub to_response-IsQuiet : (v : Vault) (mounts : Text) → IsQuiet (to_response v mounts)
unfolding to_response
to_response-IsQuiet v mounts =
    IsQuiet-bind (status_in v mounts) _ (status_in-IsQuiet v mounts)
      λ st. add_usage-IsQuiet st.mounted v.mount_point (as_response v st)
