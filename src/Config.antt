-- ===== src/Config.antt =====
-- main.go: the parsers of the environment variables. Where the process exits with an error the
-- result is `none`. `strconv.ParseBool` accepts the twelve spellings that its documentation lists.
pub mod Laws
pub mod Settings
mod Tests
use lukscrypt.Prelude.{
  Text, Bool, true, false, not, Option, none, some, List, [], ◌∷◌, map, any, keep, is_empty, text,
  text_beq, split, trim_space, if◌then◌else◌,
}
use lukscrypt.Prelude.Int.{ℤ, pos, leb_ℤ}
use lukscrypt.Prelude.Decimal.{Parsed, good, out_of_range, bad_syntax, parse_int}

check_size : Parsed → Option ℤ
check_size (good n) = if leb_ℤ n (pos 0) then none else some n
check_size (out_of_range n) = none
check_size bad_syntax = none

unfoldable pub parse_max_size : (env : Text) → (default : ℤ) → Option ℤ
unfolding check_size
parse_max_size env default = if is_empty env then some default else check_size (parse_int env)

spelt : List Text → Text → Bool
spelt ws s = any (λ w. text_beq w s) ws

unfoldable pub parse_bool : (env : Text) → (default : Bool) → Option Bool
unfolding spelt text
parse_bool env default =
    if is_empty env
    then some default
    else if spelt (text "1" ∷ text "t" ∷ text "T" ∷ text "true" ∷ text "TRUE" ∷ text "True" ∷ [])
        env
    then some true
    else if spelt (text "0" ∷ text "f" ∷ text "F" ∷ text "false" ∷ text "FALSE" ∷ text "False" ∷ [])
        env
    then some false
    else none

or_default : Text → List Text → List Text
or_default default [] = default ∷ []
or_default default (s ∷ ss) = s ∷ ss

unfoldable pub parse_list : (env default : Text) → List Text
unfolding or_default split trim_space
parse_list env default =
    or_default default (keep (λ s. not (is_empty s)) (map trim_space (split b',' env)))

-- Go's `float64`: `strconv.ParseFloat`, zero, and the comparisons with it, both of which are false
-- of NaN.
pub record Floats : Type 1 where
  pub Float : Type 0
  pub parse_float : Text → Option Float
  pub float_zero : Float
  pub is_negative : Float → Bool
  pub at_most_zero : Float → Bool

module _ (f : Floats) where
  open f use {Float, parse_float, float_zero, is_negative, at_most_zero}

  unless_refused : (Float → Bool) → Option Float → Option Float
  unless_refused refused none = none
  unless_refused refused (some v) = if refused v then none else some v

  unfoldable pub parse_auto_lock_hours : (env : Text) → Option Float
  unfolding unless_refused
  parse_auto_lock_hours env =
      if is_empty env then some float_zero else unless_refused is_negative (parse_float env)

  unfoldable pub parse_hours : (env : Text) → (default : Float) → Option Float
  unfolding unless_refused
  parse_hours env default =
      if is_empty env then some default else unless_refused at_most_zero (parse_float env)
