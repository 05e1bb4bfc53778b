-- ===== src/Api/Input/Laws.antt =====
-- What a request field that passes its check looks like.
use lukscrypt.Prelude.{
  refl, is_empty_iff, ◌^◌, ◌≤◌, ℕ, ◌⊎◌, text_beq, text_beq_iff, ◌≡◌, ap, ◌≢◌, ◌↔◌, inl, inr, true,
  not, ◌||◌, Option, some, List, [], ◌∷◌, ◌++◌, arith, Bool-cases, Option-cases, nat_eq, length,
  is_empty, all, All, Any, Text, text, text_eq, has_prefix,
}
use lukscrypt.Sys.{Res, ok, err}
use lukscrypt.Prelude.FilePath.{clean, dotdot, join_parts, is_rooted}
use lukscrypt.Prelude.FilePath.Laws.{IsPlain, clean-no_dotdot, join_plain}
use lukscrypt.Vault.Create.{img_path}
use lukscrypt.Api.Input.{
  is_name_byte, is_valid_vault_name, allowed_dir, trim_slash, with_slash, stays_inside, search_dirs,
  path_in_storage_dir, check_key_size, decode_key_file,
}

-- A lowercase letter, a digit or a hyphen.
abbrev pub IsNameByte : ℕ → Type 0
IsNameByte c = ((b'a' ≤ c) × (c ≤ b'z')) ⊎ (((b'0' ≤ c) × (c ≤ b'9')) ⊎ (c ≡ b'-'))

-- From 1 to 64 such bytes.
abbrev pub IsVaultName : Text → Type 0
IsVaultName s = (1 ≤ length s) × (length s ≤ 64) × All IsNameByte s

is_name_byte-IsNameByte : (c : ℕ) → is_name_byte c ≡ true → IsNameByte c
is_name_byte-IsNameByte c h = ground arith

all-IsNameByte : (s : Text) → all is_name_byte s ≡ true → All IsNameByte s
all-IsNameByte [] h = tt
all-IsNameByte (c ∷ s) h =
    (is_name_byte-IsNameByte c (ground arith), all-IsNameByte s (ground arith))

All-is_name_byte : (s : Text) → All IsNameByte s → all is_name_byte s ≡ true
All-is_name_byte [] h = refl
All-is_name_byte (c ∷ s) (h, hs) = ground (arith, All-is_name_byte s hs)

pub IsVaultName-is_valid_vault_name : (s : Text) → IsVaultName s → is_valid_vault_name s ≡ true
unfolding is_valid_vault_name
IsVaultName-is_valid_vault_name [] (some', short, bytes) = absurd (omega arith)
IsVaultName-is_valid_vault_name (c ∷ s) (some', short, bytes) =
    ground (arith, All-is_name_byte (c ∷ s) bytes)

-- An accepted name has from 1 to 64 bytes, each a lowercase letter, a digit or a hyphen.
pub is_valid_vault_name-IsVaultName : (s : Text) → is_valid_vault_name s ≡ true → IsVaultName s
unfolding is_valid_vault_name
is_valid_vault_name-IsVaultName [] h = cc
is_valid_vault_name-IsVaultName (c ∷ s) h =
    (omega arith, ground arith, all-IsNameByte (c ∷ s) (ground arith))

-- An allowed directory is one of those that are configured, byte for byte.
pub allowed_dir-Any :
    (dirs : List Text) (path : Text) → allowed_dir dirs path ≡ true → Any (λ d. d ≡ path) dirs
unfolding allowed_dir
allowed_dir-Any [] path h = cc
allowed_dir-Any (d ∷ dirs) path h = elim (Bool-cases (text_beq d path)) [
  | inl same ↦ inl ((text_beq_iff d path).0 same)
  | inr other ↦ inr (allowed_dir-Any dirs path (ground arith))
]

pub Any-allowed_dir :
    (dirs : List Text) (path : Text) → Any (λ d. d ≡ path) dirs → allowed_dir dirs path ≡ true
unfolding allowed_dir
Any-allowed_dir [] path h = absurd h
Any-allowed_dir (d ∷ dirs) path (inl same) = ground (arith, text_beq_iff d path)
Any-allowed_dir (d ∷ dirs) path (inr later) = ground (arith, Any-allowed_dir dirs path later)

name_bytes-IsPlain :
    (s rest : Text)
    → all is_name_byte s ≡ true
    → All (λ c. c ≢ b'/') rest
    → All (λ c. c ≢ b'/') (s ++ rest)
name_bytes-IsPlain [] rest h k = k
name_bytes-IsPlain (c ∷ s) rest h k = ground (arith, name_bytes-IsPlain s rest (ground arith) k)

image_name-IsPlain : (name : Text) → is_valid_vault_name name ≡ true → IsPlain (name ++ text ".img")
unfolding is_valid_vault_name text
image_name-IsPlain [] h = cc
image_name-IsPlain (c ∷ name) h = (
  cc,
  λ e. ground arith,
  λ e. ground arith,
  name_bytes-IsPlain (c ∷ name) (text ".img") (ground arith) (omega arith),
)

-- For a clean absolute storage directory and an accepted name, the image lies directly in the
-- directory, under the name with ".img".
pub img_path_in_dir :
    (parts : List Text) (name : Text)
    → parts ≢ []
    → All IsPlain parts
    → is_valid_vault_name name ≡ true
    → img_path (b'/' ∷ join_parts parts) name
      ≡ (b'/' ∷ join_parts parts) ++ (b'/' ∷ (name ++ text ".img"))
unfolding img_path
img_path_in_dir parts name nonempty plain valid =
    join_plain parts (name ++ text ".img") nonempty plain (image_name-IsPlain name valid)

-- A resolved file in a resolved directory; nothing where one of them cannot be resolved.
abbrev pub IsInside : Res Text → Res Text → Type 0
IsInside (ok d) (ok f) = has_prefix f (with_slash d) ≡ true
IsInside _ _ = Unit

-- The file lies in the directory: its cleaned path does, and so does the resolved one, if both can
-- be resolved.
abbrev pub LiesIn : (eval_symlinks : Text → Res Text) → Text → Text → Type 0
LiesIn eval_symlinks cleaned dir =
    (trim_slash dir ≢ [])
    × (has_prefix cleaned (with_slash (trim_slash dir)) ≡ true)
    × IsInside (eval_symlinks (trim_slash dir)) (eval_symlinks cleaned)

stays_inside-IsInside : (a b : Res Text) → stays_inside a b ≡ true → IsInside a b
unfolding stays_inside
stays_inside-IsInside (ok x) (ok y) h = h
stays_inside-IsInside (ok x) (err e) h = tt
stays_inside-IsInside (err e) y h = tt

pub search_dirs-LiesIn :
    (eval_symlinks : Text → Res Text) (cleaned : Text) (dirs : List Text)
    → search_dirs eval_symlinks cleaned dirs ≡ true
    → Any (LiesIn eval_symlinks cleaned) dirs
unfolding search_dirs
search_dirs-LiesIn eval_symlinks cleaned [] h = cc
search_dirs-LiesIn eval_symlinks cleaned (dir ∷ dirs) h =
    elim (Bool-cases
      (is_empty (trim_slash dir) || not (has_prefix cleaned (with_slash (trim_slash dir))))) [
        | inl other ↦ inr (search_dirs-LiesIn eval_symlinks cleaned dirs (rw other at h))
        | inr here ↦ inl (
          (is_empty_iff (trim_slash dir)).0 (ground arith),
          ground arith,
          stays_inside-IsInside (eval_symlinks (trim_slash dir)) (eval_symlinks cleaned)
              (rw here at h),
        )
      ]

-- An accepted absolute path is stored without ".." parts and lies in one of the storage
-- directories, also after symbolic links are resolved, where those of both can be.
pub path_in_storage_dir-LiesIn :
    (eval_symlinks : Text → Res Text) (dirs : List Text) (p : Text)
    → is_rooted p ≡ true
    → (path_in_storage_dir eval_symlinks dirs p).1 ≡ true
    → ((parts : List Text) × ((path_in_storage_dir eval_symlinks dirs p).0
          ≡ b'/' ∷ join_parts parts)
        × All (λ q. q ≢ dotdot) parts)
      × Any (LiesIn eval_symlinks (path_in_storage_dir eval_symlinks dirs p).0) dirs
unfolding path_in_storage_dir
path_in_storage_dir-LiesIn eval_symlinks dirs p rooted accepted =
    (clean-no_dotdot p rooted, search_dirs-LiesIn eval_symlinks (clean p) dirs accepted)

check_key_size_iff :
    (k key : Text)
    → (check_key_size k ≡ ok key) ↔ ((k ≡ key) × (8 ≤ length key) × (length key ≤ 2 ^ 20))
unfolding check_key_size
check_key_size_iff k key = (λ h. (ground arith, ground arith, ground arith), λ t. ground arith)

-- A keyfile is accepted exactly if it decodes to between 8 bytes and 1 MiB, and is used as decoded.
pub decode_key_file_iff :
    (decode : Text → Option Text) (b64 key : Text)
    → (decode_key_file decode b64 ≡ ok key)
      ↔ ((decode b64 ≡ some key) × (8 ≤ length key) × (length key ≤ 2 ^ 20))
unfolding decode_key_file
decode_key_file_iff decode b64 key = elim (Option-cases (decode b64)) [
  | inl e ↦ rw (e, decode_key_file) (λ h. absurd (cc), λ t. absurd (cc (t.0)))
  | inr (k, e) ↦
      let (to, from) = check_key_size_iff k key in
      rw (e, decode_key_file)
        (
          λ h. let (same, low, high) = to h in (ap some same, low, high),
          λ t. let same : k ≡ key = cc (t.0) in from (same, t.1, t.2),
        )
]
