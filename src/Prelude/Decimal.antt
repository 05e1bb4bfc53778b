-- ===== src/Prelude/Decimal.antt =====
-- `strconv.Itoa` and `strconv.ParseInt` on decimal text.
use Prim.Native.Nat.{ℕ, zero, suc, ◌+◌, ◌-◌, ◌*◌, ◌/◌, ◌%◌, ◌^◌, ◌<◌}
use mathlib.Core.Path.{◌≡◌, refl, ap, ◌∙◌}
use mathlib.Core.Logic.{inl, inr, ◌≢◌}
use mathlib.Core.Bool.{◌||◌, true, false}
use mathlib.Core.List.{[], ◌∷◌, ◌++◌}
use mathlib.Core.Option.{Option, none, some}
use native.Mathlib.Omega.{arith}
use lukscrypt.Prelude.Tests.{Bool-cases, Option-cases, if◌then◌else◌, ltb, nat_eq, ◌==◌}
use lukscrypt.Prelude.Lists.{is_empty}
use lukscrypt.Prelude.Int.{ℤ, pos, negsuc}
use lukscrypt.Prelude.Bytes.{Text, text}

abbrev numeral : ℕ → ℕ
numeral d = d + b'0'

-- `limit` bounds the number of digits.
spell : (limit n : ℕ) → Text
spell zero n = []
spell (suc limit) n = elim (ltb n 10) [
  | true ↦ numeral n ∷ []
  | false ↦ spell limit (n / 10) ++ numeral (n % 10) ∷ []
]

-- A number has no more digits than its own value and one.
unfoldable pub itoa : ℕ → Text
unfolding spell
itoa n = spell (suc n) n

unfoldable pub itoa_ℤ : ℤ → Text
unfolding itoa
itoa_ℤ (pos n) = itoa n
itoa_ℤ (negsuc n) = b'-' ∷ itoa (suc n)

digit : ℕ → Option ℕ
digit c = if ltb c b'0' || ltb b'9' c then none else some (c - b'0')

-- The digits of an unsigned number of any size.
unfoldable pub parse_from : ℕ → Text → Option ℕ
unfolding digit
parse_from n [] = some n
parse_from n (c ∷ s) = elim (digit c) [ none ↦ none | some d ↦ parse_from (n * 10 + d) s ]

unfoldable pub parse_digits : Text → Option ℕ
unfolding parse_from
parse_digits [] = none
parse_digits (c ∷ s) = parse_from 0 (c ∷ s)

parse_from-snoc :
    (m v d : ℕ) (s : Text)
    → parse_from m s ≡ some v
    → d < 10
    → parse_from m (s ++ numeral d ∷ []) ≡ some (v * 10 + d)
unfolding parse_from digit
parse_from-snoc m v d [] e h = ground arith
parse_from-snoc m v d (c ∷ s) e h = elim (Option-cases (digit c)) [
  | inl bad ↦ absurd (ground arith)
  | inr (a, is) ↦
      rw (parse_from, is) (parse_from-snoc (m * 10 + a) v d s (rw (parse_from, is) at e) h)
]

parse_from-spell : (limit n : ℕ) → n < limit → parse_from 0 (spell limit n) ≡ some n
unfolding spell parse_from digit
parse_from-spell zero n h = absurd (omega arith)
parse_from-spell (suc limit) n h = elim (Bool-cases (ltb n 10)) [
  | inl small ↦ rw (spell, small) (ground arith)
  | inr large ↦
      let rest = parse_from-spell limit (n / 10) (ground arith) in
      let all' = parse_from-snoc 0 (n / 10) (n % 10) (spell limit (n / 10)) rest (omega arith) in
      rw (spell, large) (all' ∙ ap some (omega arith))
]

-- The outcome of `strconv.ParseInt` in base 10 with 64 bits, and of `strconv.Atoi`. Out of range Go
-- returns the nearest value beside its error.
pub data Parsed : Type 0 where
  good : ℤ → Parsed
  out_of_range : ℤ → Parsed
  bad_syntax : Parsed

negate : ℕ → ℤ
negate zero = pos 0
negate (suc n) = negsuc n

positive : Option ℕ → Parsed
positive none = bad_syntax
positive (some n) = if ltb n (2 ^ 63) then good (pos n) else out_of_range (pos (2 ^ 63 - 1))

negative : Option ℕ → Parsed
unfolding negate
negative none = bad_syntax
negative (some n) = if ltb (2 ^ 63) n then out_of_range (negsuc (2 ^ 63 - 1)) else good (negate n)

unfoldable pub parse_int : Text → Parsed
unfolding parse_digits positive negative
parse_int [] = bad_syntax
parse_int (c ∷ s) =
    if c == b'-'
    then negative (parse_digits s)
    else if c == b'+'
    then positive (parse_digits s)
    else positive (parse_digits (c ∷ s))

parse_int_lem :
    (s : Text) (n : ℕ)
    → parse_digits s ≡ some n
    → n < 2 ^ 63
    → (is_empty s ≡ false) × (parse_int s ≡ good (pos n))
unfolding parse_int parse_digits parse_from digit positive negative
parse_int_lem [] n e h = cc
parse_int_lem (c ∷ s) n e h = ground arith

nonempty_digits : (s : Text) (n : ℕ) → s ≢ [] → parse_from 0 s ≡ some n → parse_digits s ≡ some n
unfolding parse_digits
nonempty_digits [] n h e = absurd (h refl)
nonempty_digits (c ∷ s) n h e = e

append_cons_nonempty : (s : Text) (c : ℕ) → (s ++ c ∷ []) ≢ []
append_cons_nonempty [] c e = cc
append_cons_nonempty (d ∷ s) c e = cc

itoa-nonempty : (n : ℕ) → itoa n ≢ []
unfolding itoa spell
itoa-nonempty n e = elim (Bool-cases (ltb n 10)) [
  | inl small ↦ let k = rw (itoa, spell, small) at e in cc
  | inr large ↦ absurd (append_cons_nonempty (spell n (n / 10)) _ (rw (itoa, spell, large) at e))
]

-- A number that fits 63 bits is read back by `ParseInt`.
pub parse_int-itoa :
    (n : ℕ) → n < 2 ^ 63 → (is_empty (itoa n) ≡ false) × (parse_int (itoa n) ≡ good (pos n))
unfolding itoa
parse_int-itoa n h =
    let read = parse_from-spell (suc n) n (omega arith) in
    parse_int_lem (itoa n) n (nonempty_digits (itoa n) n (itoa-nonempty n) read) h

itoa_4096 : itoa 4096 ≡ text "4096"
unfolding itoa text
itoa_4096 = refl

parse_4096 : parse_digits (text "4096") ≡ some 4096
unfolding parse_digits text
parse_4096 = refl
