-- ===== src/Api/Reserve.antt =====
-- internal/api/api.go: how a creation claims its name and image path, in `createVault` and
-- `releasePending`, and how `importVault` registers an image that exists. The maps `pendingNames`
-- and `pendingPaths` are lists of their keys. The sizes of a request are Go ints, the symbolic links
-- and the JSON of the LUKS2 header are parameters.
pub mod Keys
pub mod Protocol
pub mod Fresh
pub mod Accepted
mod Tests
use lukscrypt.Prelude.{
  ℕ, ◌+◌, ◌-◌, ◌/◌, ◌^◌, Text, Bool, not, ◌||◌, Option, none, some, List, [], ◌∷◌, ◌++◌, text,
  text_beq, is_empty, any, keep, ltb, if◌then◌else◌, length,
}
use lukscrypt.Prelude.Int.{ℤ, pos, leb_ℤ}
use lukscrypt.Prelude.Decimal.{itoa_ℤ}
use lukscrypt.Sys.{Vault, Res, ok, err, Prog, give, ask, ◌>>=◌, stat, list_vaults, insert_vault}
use lukscrypt.Vault.Mounts.{mapper_path}
use lukscrypt.Vault.Header.{Luks2Header, dump_details}
use lukscrypt.Api.Reply.{Reply, done, refusal}
use lukscrypt.Api.Input.{is_valid_vault_name, allowed_dir, path_in_storage_dir}

pub record Pending : Type 0 where
  pub names : List Text
  pub paths : List Text

unfoldable pub has_key : Text → List Text → Bool
has_key k ks = any (λ j. text_beq j k) ks

unfoldable pub delete_key : Text → List Text → List Text
delete_key k ks = keep (λ j. not (text_beq j k)) ks

-- The conflict with a creation that is in flight, if there is one.
unfoldable pub in_flight : (name path : Text) → Pending → Option Text
unfolding has_key
in_flight name path p =
    if has_key name p.names
    then some (text "vault creation already in progress for this name")
    else if has_key path p.paths
    then some (text "vault creation already in progress for this image path")
    else none

abbrev pub answer : (name path : Text) → Pending → Option Text → Option Text × Pending
answer name path p (some conflict) = (some conflict, p)
answer name path p none = (none, record { names = name ∷ p.names; paths = path ∷ p.paths })

-- The refusal unless it is nil, and the reservations after it.
unfoldable pub reserve : (name path : Text) → Pending → Option Text × Pending
unfolding in_flight
reserve name path p = answer name path p (in_flight name path p)

unfoldable pub release_pending : (name path : Text) → Pending → Pending
unfolding delete_key
release_pending name path p = record {
  names = delete_key name p.names;
  paths = delete_key path p.paths;
}

pub record NewVault : Type 0 where
  pub name : Text
  pub path : Text
  pub size_gb : ℤ
  pub password : Text
  pub mount_dir : Text

pub record Dirs : Type 0 where
  pub storage_dirs : List Text
  pub mount_dirs : List Text
  pub max_size_gb : ℤ

-- The message of the 400 that `createVault` replies before it reserves anything.
unfoldable pub check_new : Dirs → NewVault → Option Text
unfolding is_valid_vault_name allowed_dir
check_new d r =
    if is_empty r.name
      || is_empty r.path
      || leb_ℤ r.size_gb (pos 0)
      || is_empty r.password
      || is_empty r.mount_dir
    then some (text "all fields are required and size_gb must be positive")
    else if ltb (length r.password) 8
    then some (text "password must be at least 8 characters")
    else if not (leb_ℤ r.size_gb d.max_size_gb)
    then some
        (text "size_gb exceeds maximum allowed size of " ++ (itoa_ℤ d.max_size_gb ++ text " GB"))
    else if not (is_valid_vault_name r.name)
    then some
        (text "vault name may only contain lowercase letters, numbers, and hyphens (max 64 chars)")
    else if not (allowed_dir d.storage_dirs r.path)
    then some (text "storage directory not allowed")
    else if not (allowed_dir d.mount_dirs r.mount_dir)
    then some (text "mount directory not allowed")
    else none

-- The first registered vault that has the name or the image, in the words of the reply.
unfoldable pub conflict_with : (name path : Text) → List Vault → Option Text
conflict_with name path [] = none
conflict_with name path (v ∷ vs) =
    let rest = conflict_with name path vs in
    if text_beq v.name name
    then some (text "a vault with this name already exists")
    else if text_beq v.path path
    then some (text "this image is already registered to vault " ++ (b'"' ∷ (v.name ++ b'"' ∷ [])))
    else rest

-- GiB, rounded up
abbrev pub ceil_gb : ℕ → ℕ
ceil_gb size = (size + 2 ^ 30 - 1) / 2 ^ 30

module _ (unmarshal : Text → Res Luks2Header) (name path mount_dir : Text) where
  register : ℕ → Prog (Reply Vault)
  register size = do
    r ← ask (insert_vault name path (ceil_gb size) (mount_dir ++ b'/' ∷ name) name)
    elim r [ ok v ↦ give (done v) | err _ ↦ give (refusal 500 (text "failed to register vault")) ]

  probe : Prog (Reply Vault)
  unfolding register
  probe = do
    d ← dump_details unmarshal (record {
      id = 0;
      name = name;
      path = path;
      size_gb = 0;
      mount_point = [];
      mapper_name = name;
      created_at = [];
    })
    elim d [
      | err e ↦ give (refusal 422 e)
      | ok _ ↦ do
        info ← ask (stat path)
        elim info [
          | err e ↦ give (refusal 422 (text "image file is not readable: " ++ e))
          | ok size ↦ register size
        ]
    ]

  check_mapper : Prog (Reply Vault)
  unfolding probe mapper_path
  check_mapper = do
    info ← ask (stat (mapper_path name))
    elim info [
      | err _ ↦ probe
      | ok _ ↦ give (
          refusal 409 (
            mapper_path name
            ++ text " already exists — close it first or choose a different vault name"))
    ]

  check_registered : Prog (Reply Vault)
  unfolding check_mapper
  check_registered = do
    vs ← ask list_vaults
    elim vs [
      | err _ ↦ give (refusal 500 (text "database error"))
      | ok vs ↦ elim (conflict_with name path vs) [
        | some e ↦ give (refusal 409 e)
        | none ↦ check_mapper
      ]
    ]

  proceed : Option Text → Prog (Reply Vault)
  unfolding check_registered
  proceed (some e) = give (refusal 409 e)
  proceed none = check_registered

  -- What runs under `opMu`; the reservations do not change meanwhile.
  unfoldable pub import_locked : Pending → Prog (Reply Vault)
  unfolding proceed
  import_locked p = proceed (in_flight name path p)

-- The handler, once the body is decoded.
unfoldable pub import_vault :
    (unmarshal : Text → Res Luks2Header) (eval_symlinks : Text → Res Text) (d : Dirs)
    (name path mount_dir : Text)
    → Pending
    → Prog (Reply Vault)
unfolding is_valid_vault_name path_in_storage_dir allowed_dir import_locked
import_vault unmarshal eval_symlinks d name path mount_dir p =
    let (cleaned, inside) = path_in_storage_dir eval_symlinks d.storage_dirs path in
    if is_empty name || is_empty path || is_empty mount_dir
    then give (refusal 400 (text "name, path and mount_dir are required"))
    else if not (is_valid_vault_name name)
    then give (
        refusal 400 (
          text
            "vault name may only contain lowercase letters, numbers, and hyphens (max 64 chars)"))
    else if not inside
    then give (refusal 400 (text "path is not inside an allowed storage directory"))
    else if not (allowed_dir d.mount_dirs mount_dir)
    then give (refusal 400 (text "mount directory not allowed"))
    else import_locked unmarshal name cleaned mount_dir p
