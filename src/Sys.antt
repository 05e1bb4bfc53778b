-- ===== src/Sys.antt =====
-- What the program asks of the operating system and of other services, as the calls of a small
-- monad. The operating system, cryptsetup and the SQLite driver are not part of the repository, so
-- a program is a tree that branches on every answer they may give.
pub mod Argv
pub mod Ensures
pub mod Quiet
pub mod Attempts
use lukscrypt.Prelude.{ℕ, Text, Bool, Option, List}
use lukscrypt.Prelude.Int.{ℤ}
use Argv.{Command}

-- A Go result `(value, error)`; an error is known by its text.
pub data Res {ℓ} (A : Type ℓ) : Type ℓ where
  ok : A → Res A
  err : Text → Res A

-- The answer of `CombinedOutput` or `Run`: what was printed, and the error unless it is nil.
pub record Exit : Type 0 where
  pub out : Text
  pub failed : Option Text

-- A subprocess that is killed when its context is cancelled, one that always runs to its end, or one
-- that does and whose result the code does not read.
pub data Bound : Type 0 where
  by_context always unread : Bound

-- internal/vault/vault.go, `ProgressEvent`
pub record ProgressEvent : Type 0 where
  pub step : Text
  pub message : Text
  pub percent : ℕ
  pub error : Text
  pub done : Bool
  pub vault_id : ℕ

-- internal/db/db.go, `Vault`
pub record Vault : Type 0 where
  pub id : ℕ
  pub name : Text
  pub path : Text
  pub size_gb : ℕ
  pub mount_point : Text
  pub mapper_name : Text
  pub created_at : Text

-- How the wait for dd ended: it exited, or the context was cancelled first.
pub data Wait : Type 0 where
  exited : Option Text → Wait
  cancelled : Text → Wait

-- The error of `os.Remove`; `not_exist` is what `os.IsNotExist` says of it.
pub record OsError : Type 0 where
  pub message : Text
  pub not_exist : Bool

-- The figures of a filesystem, in bytes and blocks.
pub record Statfs : Type 0 where
  pub bsize : ℕ
  pub blocks : ℕ
  pub bfree : ℕ
  pub bavail : ℕ

pub data Call : Type 0 where
  exec : Bound → Command → (stdin : Text) → Call
  -- dd started and watched: the file sizes that the ticker saw, and the end of the wait
  watch : Command → Call
  stat : Text → Call
  read_mounts : Call
  mkdir_all : Text → (perm : ℕ) → Call
  remove : Text → Call
  chmod : Text → (perm : ℕ) → Call
  statfs : Text → Call
  create_temp : Call
  -- the open temporary file: write and close
  write_temp : Text → Text → Call
  close_temp : Text → Call
  write_file : Text → Text → (perm : ℕ) → Call
  send : ProgressEvent → Call
  -- whether the event got into the channel, or was given up, at shutdown or after a minute
  send_terminal : ProgressEvent → Call
  insert_vault : (name path : Text) → (size_gb : ℕ) → (mount_point mapper_name : Text) → Call
  list_vaults : Call
  -- `sql.ErrNoRows` is `ok none`
  find_vault : ℤ → Call
  find_vault_named : Text → Call
  delete_record : ℤ → Call
  update_size : ℤ → ℕ → Call
  -- the handler's map of unlock times: `markUnlocked` and `clearUnlocked`
  track : ℤ → Call
  untrack : ℤ → Call

abbrev pub Answer : Call → Type 0
Answer (exec b c s) = Exit
Answer (watch c) = Res (List (Option ℕ) × Wait)
Answer (stat p) = Res ℕ
Answer read_mounts = Text
Answer (mkdir_all p n) = Option Text
Answer (remove p) = Option OsError
Answer (chmod p n) = Option Text
Answer (statfs p) = Res Statfs
Answer create_temp = Res Text
Answer (write_temp p b) = Option Text
Answer (close_temp p) = Option Text
Answer (write_file p b n) = Option Text
Answer (send e) = Unit {0}
Answer (send_terminal e) = Bool
Answer (insert_vault n p g m d) = Res Vault
Answer list_vaults = Res (List Vault)
Answer (find_vault id) = Res (Option Vault)
Answer (find_vault_named n) = Res (Option Vault)
Answer (delete_record id) = Option Text
Answer (update_size id g) = Option Text
Answer (track id) = Unit {0}
Answer (untrack id) = Unit {0}

pub data Prog (A : Type 0) : Type 0 where
  give : A → Prog A
  sys : (c : Call) → (Answer c → Prog A) → Prog A

infixl 5 ◌>>=◌ ◌>>◌
abbrev pub ◌>>=◌ : {A B : Type 0} → Prog A → (A → Prog B) → Prog B
give a >>= f = f a
sys c k >>= f = sys c (λ r. k r >>= f)

abbrev pub ◌>>◌ : {A B : Type 0} → Prog A → Prog B → Prog B
m >> k = m >>= λ _. k

abbrev pub ask : (c : Call) → Prog (Answer c)
ask c = sys c give
