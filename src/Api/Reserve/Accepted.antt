-- ===== src/Api/Reserve/Accepted.antt =====
-- Which creations are accepted.
use lukscrypt.Prelude.{
  is_empty_iff, ◌≤◌, ◌<◌, Text, text_beq_iff, text_eq, List, All, Any, true, false, none, [], ◌∷◌,
  ◌≡◌, ◌≢◌, refl, ◌↔◌, is_empty, length, arith,
}
use lukscrypt.Prelude.Int.{ℤ, pos, negsuc, leb_ℤ}
use lukscrypt.Api.Input.{is_valid_vault_name, allowed_dir}
use lukscrypt.Api.Input.Laws.{
  IsVaultName, is_valid_vault_name-IsVaultName, allowed_dir-Any, IsVaultName-is_valid_vault_name,
  Any-allowed_dir,
}
use lukscrypt.Api.Reserve.{Pending, has_key, in_flight, NewVault, Dirs, check_new}

abbrev pub IsPositive : ℤ → Type 0
IsPositive (pos n) = 0 < n
IsPositive (negsuc n) = ⊥

abbrev pub IsAccepted : Dirs → NewVault → Type 0
IsAccepted d r =
    (is_valid_vault_name r.name ≡ true)
    × (allowed_dir d.storage_dirs r.path ≡ true)
    × (allowed_dir d.mount_dirs r.mount_dir ≡ true)
    × (r.path ≢ [])
    × (r.mount_dir ≢ [])
    × (8 ≤ length r.password)
    × IsPositive r.size_gb
    × (leb_ℤ r.size_gb d.max_size_gb ≡ true)

-- Neither the name nor the image is one of those that are reserved.
abbrev pub IsUnreserved : (name path : Text) → Pending → Type 0
IsUnreserved name path p = All (λ n. n ≢ name) p.names × All (λ q. q ≢ path) p.paths

has_key-All : (k : Text) (ks : List Text) → has_key k ks ≡ false → All (λ j. j ≢ k) ks
unfolding has_key
has_key-All k [] h = tt
has_key-All k (j ∷ ks) h = (ground (arith, text_beq_iff j k), has_key-All k ks (ground arith))

pub in_flight-IsUnreserved :
    (name path : Text) (p : Pending) → in_flight name path p ≡ none → IsUnreserved name path p
unfolding in_flight
in_flight-IsUnreserved name path p h =
    (has_key-All name p.names (ground arith), has_key-All path p.paths (ground arith))

All-has_key : (k : Text) (ks : List Text) → All (λ j. j ≢ k) ks → has_key k ks ≡ false
unfolding has_key
All-has_key k [] h = refl
All-has_key k (j ∷ ks) (h, hs) = ground (arith, text_beq_iff j k, All-has_key k ks hs)

pub IsUnreserved-in_flight :
    (name path : Text) (p : Pending) → IsUnreserved name path p → in_flight name path p ≡ none
unfolding in_flight
IsUnreserved-in_flight name path p (h, k) =
    ground (arith, All-has_key name p.names h, All-has_key path p.paths k)

-- What a request that is accepted looks like, in terms of its bytes.
abbrev pub IsWellFormed : Dirs → NewVault → Type 0
IsWellFormed d r =
    IsVaultName r.name
    × Any (λ s. s ≡ r.path) d.storage_dirs
    × Any (λ s. s ≡ r.mount_dir) d.mount_dirs
    × (8 ≤ length r.password)
    × IsPositive r.size_gb
    × (leb_ℤ r.size_gb d.max_size_gb ≡ true)
    × (r.path ≢ [])
    × (r.mount_dir ≢ [])

IsPositive-iff : (z : ℤ) → (leb_ℤ z (pos 0) ≡ false) ↔ IsPositive z
IsPositive-iff (pos n) = ground arith
IsPositive-iff (negsuc n) = (λ e. cc, λ h. absurd h)

named : (name : Text) → is_valid_vault_name name ≡ true → is_empty name ≡ false
unfolding is_valid_vault_name
named [] h = cc
named (c ∷ name) h = refl

secret : (password : Text) → 8 ≤ length password → is_empty password ≡ false
secret [] h = absurd (omega arith)
secret (c ∷ password) h = refl

-- A request for a creation gets past the checks exactly if its name is valid, its directories are
-- allowed and not empty, its password has eight bytes, and its size is positive and at most the
-- maximum.
pub check_new_iff : (d : Dirs) (r : NewVault) → (check_new d r ≡ none) ↔ IsAccepted d r
unfolding check_new
check_new_iff d r = ground (
  arith,
  is_empty_iff r.path,
  is_empty_iff r.mount_dir,
  IsPositive-iff r.size_gb,
  named r.name,
  secret r.password,
)

-- A request for a creation gets past the checks exactly if its name has from 1 to 64 lowercase
-- letters, digits or hyphens, its two directories are configured ones and not empty, its password
-- has eight bytes, and its size is positive and at most the maximum.
pub check_new-IsWellFormed : (d : Dirs) (r : NewVault) → (check_new d r ≡ none) ↔ IsWellFormed d r
check_new-IsWellFormed d r =
    let (to, from) = check_new_iff d r in
    (
      λ h.
          let (name, path, dir, some_path, some_dir, password, positive, small) = to h in
          (
            is_valid_vault_name-IsVaultName r.name name,
            allowed_dir-Any d.storage_dirs r.path path,
            allowed_dir-Any d.mount_dirs r.mount_dir dir,
            password,
            positive,
            small,
            some_path,
            some_dir,
          ),
      λ (name, path, dir, password, positive, small, some_path, some_dir). from (
        IsVaultName-is_valid_vault_name r.name name,
        Any-allowed_dir d.storage_dirs r.path path,
        Any-allowed_dir d.mount_dirs r.mount_dir dir,
        some_path,
        some_dir,
        password,
        positive,
        small,
      ),
    )
