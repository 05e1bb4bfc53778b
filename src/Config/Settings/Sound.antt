-- ===== src/Config/Settings/Sound.antt =====
-- What the server is started with.
use lukscrypt.Prelude.{
  ℕ, Text, text, Bool, false, Option, none, some, [], ◌∷◌, ◌≡◌, ◌≢◌, refl, subst, All, arith,
}
use lukscrypt.Prelude.Int.{ℤ, pos, leb_ℤ}
use lukscrypt.Prelude.Decimal.{Parsed, good, out_of_range, bad_syntax, parse_int}
use lukscrypt.Config.{
  Floats, check_size, parse_max_size, parse_bool, unless_refused, parse_auto_lock_hours,
  parse_hours,
}
use lukscrypt.Config.Laws.{parse_list-IsFilled}
use lukscrypt.Config.Settings.{◌>>=◌, or_text, auth_password, Settings, settings}

-- What holds of the result if there is one.
abbrev OnSome {ℓ} : {A : Type ℓ} → (A → Type 0) → Option A → Type 0
OnSome P none = Unit
OnSome P (some a) = P a

OnSome-bind {ℓ κ} :
    {A : Type ℓ} {B : Type κ} (P : B → Type 0) (o : Option A) (g : A → Option B)
    → ((a : A) → o ≡ some a → OnSome P (g a))
    → OnSome P (o >>= g)
OnSome-bind P none g h = tt
OnSome-bind P (some a) g h = h a refl

check_size-some : (p : Parsed) (n : ℤ) → check_size p ≡ some n → leb_ℤ n (pos 0) ≡ false
unfolding check_size
check_size-some (good m) n h = ground arith
check_size-some (out_of_range m) n h = cc
check_size-some bad_syntax n h = cc

parse_max_size-some :
    (env : Text) (default n : ℤ)
    → leb_ℤ default (pos 0) ≡ false
    → parse_max_size env default ≡ some n
    → leb_ℤ n (pos 0) ≡ false
unfolding parse_max_size
parse_max_size-some env default n d h = ground (arith, check_size-some (parse_int env) n)

or_text-nonempty : (env default : Text) → default ≢ [] → or_text env default ≢ []
unfolding or_text
or_text-nonempty [] default d = d
or_text-nonempty (c ∷ env) default d = λ e. cc

auth_password-nonempty :
    (env : Text) (random_hex : Option Text) (pass : Text)
    → random_hex ≢ some []
    → auth_password env random_hex ≡ some pass
    → pass ≢ []
unfolding auth_password
auth_password-nonempty [] random_hex pass r h = λ e. r (rw (h, e) refl)
auth_password-nonempty (c ∷ env) random_hex pass r h = λ e. cc

-- The defaults are not empty.
filled : (text "/vaults" ≢ []) × (text "/mnt" ≢ []) × (text "admin" ≢ [])
unfolding text
filled = (λ e. cc, λ e. cc, λ e. cc)

module _ (f : Floats) where
  open f use {Float, parse_float, float_zero, is_negative, at_most_zero}

  unless_refused-some :
      (refused : Float → Bool) (o : Option Float) (v : Float)
      → unless_refused f refused o ≡ some v
      → refused v ≡ false
  unfolding unless_refused
  unless_refused-some refused none v h = cc
  unless_refused-some refused (some w) v h = ground arith

  parse_auto_lock_hours-some :
      (env : Text) (v : Float)
      → is_negative float_zero ≡ false
      → parse_auto_lock_hours f env ≡ some v
      → is_negative v ≡ false
  unfolding parse_auto_lock_hours
  parse_auto_lock_hours-some env v z h =
      ground (arith, unless_refused-some is_negative (parse_float env) v)

  parse_hours-some :
      (env : Text) (default v : Float)
      → at_most_zero default ≡ false
      → parse_hours f env default ≡ some v
      → at_most_zero v ≡ false
  unfolding parse_hours
  parse_hours-some env default v z h =
      ground (arith, unless_refused-some at_most_zero (parse_float env) v)

  pub record IsSound (s : Settings f) : Type 0 where
    pub storage : (s.storage_dirs ≢ []) × All (λ d. d ≢ []) s.storage_dirs
    pub mounts : (s.mount_dirs ≢ []) × All (λ d. d ≢ []) s.mount_dirs
    pub size : leb_ℤ s.max_size_gb (pos 0) ≡ false
    pub user : s.auth_user ≢ []
    pub pass : s.auth_pass ≢ []
    pub window : is_negative s.auto_lock_hours ≡ false
    pub idle : at_most_zero s.session_idle ≡ false
    pub max_age : at_most_zero s.session_max_age ≡ false

  settings-OnSome :
      (whole : ℕ → Float) (getenv : Text → Text) (random_hex : Option Text)
      → random_hex ≢ some []
      → is_negative float_zero ≡ false
      → at_most_zero (whole 12) ≡ false
      → at_most_zero (whole 168) ≡ false
      → OnSome IsSound (settings f whole getenv random_hex)
  unfolding settings
  settings-OnSome whole getenv random_hex r z twelve week =
      OnSome-bind IsSound (parse_max_size (getenv (text "VAULT_MAX_SIZE_GB")) (pos 100)) _ λ size a.
        OnSome-bind IsSound (auth_password (getenv (text "AUTH_PASSWORD")) random_hex) _ λ pass b.
          OnSome-bind IsSound (parse_bool (getenv (text "TRUST_PROXY")) false) _ λ proxy _.
            OnSome-bind IsSound (parse_auto_lock_hours f (getenv (text "AUTO_LOCK_HOURS"))) _
              λ window d.
                OnSome-bind IsSound (parse_hours f (getenv (text "SESSION_IDLE_HOURS")) (whole 12))
                  _
                  λ idle e.
                    OnSome-bind IsSound
                      (parse_hours f (getenv (text "SESSION_MAX_AGE_HOURS")) (whole 168)) _
                      λ age g. record {
                        storage =
                            parse_list-IsFilled (getenv (text "VAULT_STORAGE_DIRS"))
                              (text "/vaults") filled.0;
                        mounts =
                            parse_list-IsFilled (getenv (text "VAULT_MOUNT_DIRS")) (text "/mnt")
                              filled.1;
                        size = parse_max_size-some _ (pos 100) size refl a;
                        user = or_text-nonempty (getenv (text "AUTH_USER")) (text "admin") filled.2;
                        pass = auth_password-nonempty _ random_hex pass r b;
                        window = parse_auto_lock_hours-some _ window z d;
                        idle = parse_hours-some _ (whole 12) idle twelve e;
                        max_age = parse_hours-some _ (whole 168) age week g;
                      }

  -- If the server starts, whatever the environment says: there is an allowed storage directory and
  -- an allowed mount directory, and none of them is empty; the maximum size is positive; neither the
  -- user nor the password is empty; the auto-lock window is not negative, and no session lifetime is
  -- at most zero (NaN, of which every comparison is false, is not excluded). It is taken that a
  -- password made from random bytes is not empty, that 0 is not negative, and that 12 and 168 are
  -- not at most zero.
  pub settings-IsSound :
      (whole : ℕ → Float) (getenv : Text → Text) (random_hex : Option Text) (s : Settings f)
      → random_hex ≢ some []
      → is_negative float_zero ≡ false
      → at_most_zero (whole 12) ≡ false
      → at_most_zero (whole 168) ≡ false
      → settings f whole getenv random_hex ≡ some s
      → IsSound s
  settings-IsSound whole getenv random_hex s r z twelve week h =
      subst (OnSome IsSound) h (settings-OnSome whole getenv random_hex r z twelve week)
