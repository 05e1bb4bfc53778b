-- ===== src/Db/Open.antt =====
-- internal/db/db.go: `Open` and `migrate`. A database file has each table or has it not; the
-- connection's answers to the statements are a parameter, `none` where one succeeds, and a statement
-- that fails changes nothing. The pool's size, which `Open` sets for `:memory:`, is left out.
pub mod Kept
mod Tests
use lukscrypt.Prelude.{ℕ, Text, text, Option, none, some, List, [], ◌∷◌, ◌++◌, arith}
use lukscrypt.Sys.{Vault, Res, ok, err}
use lukscrypt.Db.{ApiToken}

-- The rows of a table, and the id of the next.
pub record File : Type 0 where
  pub vaults : Option (List Vault × ℕ)
  pub tokens : Option (List ApiToken × ℕ)

pub data Statement : Type 0 where
  journal_mode synchronous create_vaults create_tokens : Statement

-- `CREATE TABLE IF NOT EXISTS`
unfoldable pub if_not_exists : {A : Type 0} → Option (List A × ℕ) → Option (List A × ℕ)
if_not_exists none = some ([], 1)
if_not_exists (some t) = some t

effect : Statement → File → File
unfolding if_not_exists
effect create_vaults f = record f { vaults = if_not_exists f.vaults }
effect create_tokens f = record f { tokens = if_not_exists f.tokens }
effect _ f = f

-- The prefix of a failed statement's error.
context : Statement → Text
context journal_mode = text "pragma \"PRAGMA journal_mode=WAL\": "
context synchronous = text "pragma \"PRAGMA synchronous=NORMAL\": "
context _ = []

-- A statement's error, or what comes after it.
unless_failed : Option Text → Statement → (after : Option Text × File) → File → Option Text × File
unfolding context
unless_failed (some e) s after f = (some (context s ++ e), f)
unless_failed none s after f = after

module _ (fails : Statement → Option Text) where
  execute : List Statement → File → Option Text × File
  unfolding effect unless_failed
  execute [] f = (none, f)
  execute (s ∷ ss) f = unless_failed (fails s) s (execute ss (effect s f)) f

  -- The error, if there is one, and the file after it.
  unfoldable pub migrate : File → Option Text × File
  unfolding execute
  migrate f = execute (journal_mode ∷ synchronous ∷ create_vaults ∷ create_tokens ∷ []) f

  opened : Option Text × File → Res (Unit {0}) × File
  opened (none, f) = (ok tt, f)
  opened (some e, f) = (err (text "migrate: " ++ e), f)

  -- `connect` is the error of `sql.Open`.
  unfoldable pub open_db : (connect : Option Text) → File → Res (Unit {0}) × File
  unfolding opened migrate
  open_db (some e) f = (err (text "open: " ++ e), f)
  open_db none f = opened (migrate f)
