-- ===== src/Config/Settings.antt =====
-- main.go, `main`: the settings from the environment, before the server starts. `getenv` gives an
-- empty text for a variable that is not set; a password that has to be made comes as the hex of its
-- random bytes, `none` if there is no randomness. `none` as the result is an exit with status 1.
pub mod Sound
mod Tests
use lukscrypt.Prelude.{
  ℕ, Text, text, Bool, false, Option, none, some, List, is_empty, if◌then◌else◌,
}
use lukscrypt.Prelude.Int.{ℤ, pos}
use lukscrypt.Config.{
  Floats, parse_max_size, parse_bool, parse_list, parse_auto_lock_hours, parse_hours,
}

-- The next setting, unless an earlier one has ended the process.
infixl 5 ◌>>=◌
abbrev pub ◌>>=◌ {ℓ κ} : {A : Type ℓ} → {B : Type κ} → Option A → (A → Option B) → Option B
none >>= f = none
some a >>= f = f a

unfoldable pub or_text : (env default : Text) → Text
or_text env default = if is_empty env then default else env

-- `AUTH_PASSWORD`, or a password that is made and logged.
unfoldable pub auth_password : (env : Text) → (random_hex : Option Text) → Option Text
auth_password env random_hex = if is_empty env then random_hex else some env

module _ (f : Floats) where
  open f use {Float}

  -- The durations of the sessions are still in hours.
  pub record Settings : Type 0 where
    pub db_path : Text
    pub storage_dirs : List Text
    pub mount_dirs : List Text
    pub max_size_gb : ℤ
    pub auth_user : Text
    pub auth_pass : Text
    pub trust_proxy : Bool
    pub auto_lock_hours : Float
    pub session_idle : Float
    pub session_max_age : Float

  -- `whole` is the conversion of the constants to `float64`.
  unfoldable pub settings :
      (whole : ℕ → Float) → (getenv : Text → Text) → (random_hex : Option Text) → Option Settings
  unfolding or_text auth_password parse_max_size parse_bool parse_list parse_auto_lock_hours
      parse_hours
  settings whole getenv random_hex = do
    max_size ← parse_max_size (getenv (text "VAULT_MAX_SIZE_GB")) (pos 100)
    auth_pass ← auth_password (getenv (text "AUTH_PASSWORD")) random_hex
    trust_proxy ← parse_bool (getenv (text "TRUST_PROXY")) false
    auto_lock ← parse_auto_lock_hours f (getenv (text "AUTO_LOCK_HOURS"))
    idle ← parse_hours f (getenv (text "SESSION_IDLE_HOURS")) (whole 12)
    max_age ← parse_hours f (getenv (text "SESSION_MAX_AGE_HOURS")) (whole 168)
    some (record {
      db_path = or_text (getenv (text "DB_PATH")) (text "/data/lukscrypt.db");
      storage_dirs = parse_list (getenv (text "VAULT_STORAGE_DIRS")) (text "/vaults");
      mount_dirs = parse_list (getenv (text "VAULT_MOUNT_DIRS")) (text "/mnt");
      max_size_gb = max_size;
      auth_user = or_text (getenv (text "AUTH_USER")) (text "admin");
      auth_pass = auth_pass;
      trust_proxy = trust_proxy;
      auto_lock_hours = auto_lock;
      session_idle = idle;
      session_max_age = max_age;
    })
