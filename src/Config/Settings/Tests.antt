-- ===== src/Config/Settings/Tests.antt =====
-- The settings at concrete environments. Hours are read as decimal integers here.
use lukscrypt.Prelude.{
  Text, text, text_beq, false, Option, none, some, [], ◌∷◌, ◌≡◌, ◌≢◌, refl, split, if◌then◌else◌,
}
use lukscrypt.Prelude.Int.{ℤ, pos, negsuc, leb_ℤ}
use lukscrypt.Prelude.Decimal.{Parsed, good, parse_int}
use lukscrypt.Config.{
  Floats, parse_max_size, parse_bool, parse_list, parse_auto_lock_hours, parse_hours,
}
use lukscrypt.Config.Settings.{or_text, auth_password, Settings, settings}
use lukscrypt.Config.Settings.Sound.{IsSound, settings-IsSound}

abbrev integer : Parsed → Option ℤ
integer (good n) = some n
integer _ = none

abbrev whole_hours : Floats
whole_hours = record {
  Float = ℤ;
  parse_float = λ s. integer (parse_int s);
  float_zero = pos 0;
  is_negative = λ v. leb_ℤ v (negsuc 0);
  at_most_zero = λ v. leb_ℤ v (pos 0);
}

abbrev unset : Text → Text
unset name = []

-- All that is not set but one limit.
abbrev limited : Text → Text
limited name = if text_beq name (text "VAULT_MAX_SIZE_GB") then text "50" else []

abbrev defaults : Settings whole_hours
defaults = record {
  db_path = text "/data/lukscrypt.db";
  storage_dirs = text "/vaults" ∷ [];
  mount_dirs = text "/mnt" ∷ [];
  max_size_gb = pos 100;
  auth_user = text "admin";
  auth_pass = text "0123abcd";
  trust_proxy = false;
  auto_lock_hours = pos 0;
  session_idle = pos 12;
  session_max_age = pos 168;
}

defaults_test : settings whole_hours pos unset (some (text "0123abcd")) ≡ some defaults
unfolding settings or_text auth_password parse_max_size parse_bool parse_list parse_auto_lock_hours
    parse_hours parse_int split text text_beq
defaults_test = refl

no_randomness_test : settings whole_hours pos unset none ≡ none
unfolding settings or_text auth_password parse_max_size parse_bool parse_list parse_auto_lock_hours
    parse_hours parse_int split text text_beq
no_randomness_test = refl

limit_read :
    settings whole_hours pos limited (some (text "0123abcd"))
    ≡ some (record defaults { max_size_gb = pos 50 })
unfolding settings or_text auth_password parse_max_size parse_bool parse_list parse_auto_lock_hours
    parse_hours parse_int split text text_beq
limit_read = refl

password_made : some (text "0123abcd") ≢ some []
unfolding text
password_made e = cc

settings-IsSound_example : IsSound whole_hours (record defaults { max_size_gb = pos 50 })
settings-IsSound_example =
    settings-IsSound whole_hours pos limited (some (text "0123abcd"))
      (record defaults { max_size_gb = pos 50 }) password_made refl refl refl limit_read
