-- ===== src/Api/Input.antt =====
-- internal/api/api.go: the checks of request fields. `isValidVaultName`, `allowedStorageDir`,
-- `allowedMountDir`, `pathInStorageDir`, `decodeKeyFile` and `parseID`. Go ranges over the runes of
-- a name; every rune beyond ASCII, a broken one too, is refused, and so is each of its bytes.
-- `filepath.EvalSymlinks` asks the file system, and base64 is a parameter.
pub mod Laws
use lukscrypt.Prelude.{
  ℕ, ◌+◌, ◌-◌, ◌/◌, sym, Bool, true, false, not, ◌&&◌, ◌||◌, Option, none, some, List, [], ◌∷◌,
  ◌++◌, arith, ltb, leb, if◌then◌else◌, Eq, ◌==◌, nat_eq, length, is_empty, all, any, Text, text,
  text_beq, text_eq, has_prefix,
}
use lukscrypt.Prelude.Int.{ℤ}
use lukscrypt.Prelude.Decimal.{itoa, parse_int, good}
use lukscrypt.Prelude.FilePath.{clean}
use lukscrypt.Sys.{Res, ok, err}
use lukscrypt.Vault.Keys.{min_key_file_size, max_key_file_size}

abbrev pub is_name_byte : ℕ → Bool
is_name_byte c = (leb b'a' c && leb c b'z') || (leb b'0' c && leb c b'9') || c == b'-'

unfoldable pub is_valid_vault_name : Text → Bool
is_valid_vault_name s = if is_empty s || ltb 64 (length s) then false else all is_name_byte s

unfoldable pub allowed_dir : List Text → Text → Bool
allowed_dir dirs path = any (λ d. text_beq d path) dirs

-- `strings.TrimSuffix(dir, "/")`
unfoldable pub trim_slash : Text → Text
trim_slash [] = []
trim_slash (c ∷ []) = if c == b'/' then [] else c ∷ []
trim_slash (c ∷ d ∷ s) = c ∷ trim_slash (d ∷ s)

abbrev pub with_slash : Text → Text
with_slash dir = dir ++ b'/' ∷ []

-- Where both can be resolved, the file must stay in the directory.
stays_inside : Res Text → Res Text → Bool
stays_inside (ok dir) (ok file) = has_prefix file (with_slash dir)
stays_inside (ok dir) (err e) = true
stays_inside (err e) file = true

-- The first directory that is a prefix decides.
pub search_dirs : (eval_symlinks : Text → Res Text) → Text → List Text → Bool
unfolding stays_inside trim_slash
search_dirs eval_symlinks cleaned [] = false
search_dirs eval_symlinks cleaned (dir ∷ dirs) =
    let d = trim_slash dir in
    let rest = search_dirs eval_symlinks cleaned dirs in
    if is_empty d || not (has_prefix cleaned (with_slash d))
    then rest
    else stays_inside (eval_symlinks d) (eval_symlinks cleaned)

-- The cleaned path, and whether it is accepted.
unfoldable pub path_in_storage_dir :
    (eval_symlinks : Text → Res Text) → (storage_dirs : List Text) → Text → Text × Bool
unfolding search_dirs clean has_prefix
path_in_storage_dir eval_symlinks storage_dirs p =
    (clean p, search_dirs eval_symlinks (clean p) storage_dirs)

check_key_size : Text → Res Text
check_key_size key =
    if ltb (length key) min_key_file_size
    then err (text "key_file must be at least " ++ (itoa min_key_file_size ++ text " bytes"))
    else if ltb max_key_file_size (length key)
    then err (text "key_file exceeds maximum size of " ++ (itoa max_key_file_size ++ text " bytes"))
    else ok key

-- `decode` is the standard base64 decoding, `none` on an error.
unfoldable pub decode_key_file : (decode : Text → Option Text) → Text → Res Text
unfolding check_key_size
decode_key_file decode b64 = elim (decode b64) [
  | none ↦ err (text "key_file is not valid base64")
  | some key ↦ check_key_size key
]

unfoldable pub parse_id : Text → Option ℤ
unfolding parse_int
parse_id s = elim (parse_int s) [ good n ↦ some n | _ ↦ none ]
