-- ===== src/Vault/Keys/TempFile.antt =====
-- The temporary file that carries a new keyfile credential.
use lukscrypt.Prelude.{
  ℕ, Text, Bool, true, false, Option, none, some, ◌≡◌, refl, arith, ◌&&◌, ◌||◌, not, leb, length,
  length-replicate, replicate, all, nat_eq, ◌==◌, text_beq, text_beq_refl, if◌then◌else◌, zero, suc,
}
use lukscrypt.Prelude.Int.{ℤ}
use lukscrypt.Sys.{Vault, Call, Answer, Prog, ok, err}
use lukscrypt.Vault.Access.Held.{succeeded}
use lukscrypt.Sys.Ensures.{Ensures, Exit-cases}
use lukscrypt.Vault.Keys.{
  wipe, add_key_command, close_key, write_key, secure_key, create_key, add_key_file,
}

-- A monitor of the file: whether it exists, its mode is 0600, it may hold the key; and whether the
-- key was ever written to it before the mode was set, or the file removed with the key in it.
pub record TempFile : Type 0 where
  pub path : Option Text
  pub private : Bool
  pub secret : Bool
  pub exposed : Bool
  pub leaked : Bool

abbrev pub no_file : TempFile
no_file = record { path = none; private = false; secret = false; exposed = false; leaked = false }

abbrev at_path : Text → TempFile → Bool
at_path p f = elim f.path [ none ↦ false | some q ↦ text_beq p q ]

abbrev is_zero : ℕ → Bool
is_zero c = c == 0

-- The bytes overwrite all of the key with zeros.
abbrev pub blanks : Text → Text → Bool
blanks key bytes = leb (length key) (length bytes) && all is_zero bytes

module _ (key : Text) where
  abbrev pub next : (c : Call) → Answer c → TempFile → TempFile
  next Call.create_temp (ok p) f = record f { path = some p }
  next Call.create_temp (err e) f = f
  next (Call.chmod p perm) r f = record f {
    private = f.private || (at_path p f && perm == 0o600 && succeeded r);
  }
  next (Call.write_temp p b) r f = record f {
    secret = f.secret || at_path p f;
    exposed = f.exposed || not f.private;
  }
  next (Call.write_file p b perm) r f = record f {
    secret = f.secret && not (at_path p f && blanks key b);
  }
  next (Call.remove p) r f = record f {
    path = if at_path p f then none else f.path;
    leaked = f.leaked || (at_path p f && f.secret);
  }
  next _ r f = f

-- The end: no file, and no trace of the key.
pub record IsWiped (f : TempFile) : Type 0 where
  pub gone : f.path ≡ none
  pub unexposed : f.exposed ≡ false
  pub unleaked : f.leaked ≡ false

all_zero : (n : ℕ) → all is_zero (replicate n 0) ≡ true
all_zero zero = refl
all_zero (suc n) = ground (arith, all_zero n)

blanks-replicate : (key : Text) → blanks key (replicate (length key) 0) ≡ true
blanks-replicate key =
    ground (arith, all_zero (length key), length-replicate {A = ℕ} (length key) 0)

-- The file exists, and nothing has gone wrong.
record Exists (tmp : Text) (f : TempFile) : Type 0 where
  there : f.path ≡ some tmp
  unexposed : f.exposed ≡ false
  unleaked : f.leaked ≡ false

module _ (v : Vault) (existing key tmp : Text) (slot : ℤ) where
  abbrev Wipes : TempFile → Prog (Option Text) → Type 0
  Wipes f m = Ensures (next key) (λ f' _. IsWiped f') f m

  wipe_lem : (f : TempFile) (result : Option Text) → Exists tmp f → Wipes f (wipe tmp key result)
  unfolding wipe
  wipe_lem f result k = λ _ _. ground (arith, text_beq_refl tmp, blanks-replicate key)

  add_key_command_lem :
      (f : TempFile) → Exists tmp f → Wipes f (add_key_command v existing key tmp slot)
  unfolding add_key_command
  add_key_command_lem f k = Exit-cases _ (λ out. wipe_lem f none k) λ out e. wipe_lem f _ k

  close_key_lem : (f : TempFile) → Exists tmp f → Wipes f (close_key v existing key tmp slot)
  unfolding close_key
  close_key_lem f k = elim [ none ↦ add_key_command_lem f k | some e ↦ wipe_lem f _ k ]

  write_key_lem :
      (f : TempFile) → f.private ≡ true → Exists tmp f → Wipes f (write_key v existing key tmp slot)
  unfolding write_key
  write_key_lem f p k = elim [
    | none ↦ close_key_lem _ (ground arith)
    | some e ↦ λ _. wipe_lem _ _ (ground arith)
  ]

  secure_key_lem :
      (f : TempFile)
      → f.private ≡ false
      → f.secret ≡ false
      → Exists tmp f
      → Wipes f (secure_key v existing key tmp slot)
  unfolding secure_key
  secure_key_lem f p q k = elim [
    | none ↦ write_key_lem _ (ground (arith, text_beq_refl tmp)) (ground arith)
    | some e ↦ λ _. wipe_lem _ _ (ground arith)
  ]

create_key_lem :
    (v : Vault) (existing key : Text) (slot : ℤ)
    → Ensures (next key) (λ f _. IsWiped f) no_file (create_key v existing key slot)
unfolding create_key
create_key_lem v existing key slot = elim [
  | err e ↦ ground arith
  | ok tmp ↦ secure_key_lem v existing key tmp slot _ refl refl (ground arith)
]

-- Whatever the system answers, a keyfile credential is written only to a file whose mode was set to
-- 0600 before, and when `add_key_file` returns the file was removed, after all of the key in it was
-- overwritten with zeros (both calls are taken to do what they are asked).
pub add_key_file-IsWiped :
    (v : Vault) (existing key : Text) (slot : ℤ)
    → Ensures (next key) (λ f _. IsWiped f) no_file (add_key_file v existing key slot)
unfolding add_key_file
add_key_file-IsWiped v existing key slot = create_key_lem v existing key slot
