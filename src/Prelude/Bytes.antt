-- ===== src/Prelude/Bytes.antt =====
-- Go strings and byte slices: lists of bytes.
use Prim.Native.Nat.{ℕ, ◌+◌, ◌/◌, ◌%◌}
use Prim.Native.Char.{code}
use Prim.Native.String.{String}
use mathlib.Core.Path.{◌≡◌, refl}
use mathlib.Core.Logic.{◌↔◌}
use mathlib.Core.Bool.{Bool, true, false, ◌&&◌, ◌||◌}
use mathlib.Core.Option.{Option, none, some}
use mathlib.Core.List.{List, [], ◌∷◌, ◌++◌, reverse}
use native.Mathlib.Omega.{arith}
use lukscrypt.Prelude.Tests.{ltb, if◌then◌else◌, Eq, ◌==◌, nat_eq}

abbrev pub Text : Type 0
Text = List ℕ

-- The UTF-8 bytes of one code point.
abbrev pub utf8 : ℕ → Text
utf8 c =
    if ltb c 0x80
    then c ∷ []
    else if ltb c 0x800
    then (0xc0 + c / 64) ∷ (0x80 + c % 64) ∷ []
    else if ltb c 0x10000
    then (0xe0 + c / 4096) ∷ (0x80 + c / 64 % 64) ∷ (0x80 + c % 64) ∷ []
    else (0xf0 + c / 262144) ∷ (0x80 + c / 4096 % 64) ∷ (0x80 + c / 64 % 64) ∷ (0x80 + c % 64) ∷ []

-- The bytes of a literal.
unfoldable pub text : String → Text
text String.[] = []
text (String.◌∷◌ c s) = utf8 (code c) ++ text s

unfoldable pub text_beq : Text → Text → Bool
text_beq [] [] = true
text_beq (x ∷ xs) (y ∷ ys) = x == y && text_beq xs ys
text_beq _ _ = false

pub text_beq_iff : (s t : Text) → (text_beq s t ≡ true) ↔ (s ≡ t)
unfolding text_beq
text_beq_iff [] [] = (λ _. refl, λ _. refl)
text_beq_iff [] (y ∷ ys) = (λ h. cc, λ h. cc)
text_beq_iff (x ∷ xs) [] = (λ h. cc, λ h. cc)
text_beq_iff (x ∷ xs) (y ∷ ys) = ground (arith, text_beq_iff xs ys)

pub text_beq_refl : (s : Text) → text_beq s s ≡ true
text_beq_refl s = (text_beq_iff s s).1 refl

instance abbrev pub text_eq : Eq Text
text_eq = record { beq = text_beq; beq_iff = text_beq_iff }

-- `strings.HasPrefix`
unfoldable pub has_prefix : Text → Text → Bool
has_prefix s [] = true
has_prefix [] (p ∷ ps) = false
has_prefix (x ∷ xs) (p ∷ ps) = x == p && has_prefix xs ps

-- What follows a prefix.
unfoldable pub strip_prefix : Text → Text → Option Text
strip_prefix [] s = some s
strip_prefix (p ∷ ps) [] = none
strip_prefix (p ∷ ps) (c ∷ s) = if p == c then strip_prefix ps s else none

-- `strings.Contains`, `bytes.Contains`
unfoldable pub contains : Text → Text → Bool
unfolding has_prefix
contains [] p = has_prefix [] p
contains (x ∷ xs) p = has_prefix (x ∷ xs) p || contains xs p

-- The ASCII white space that `strings.TrimSpace` and the regular expressions' `\s` remove.
abbrev pub is_space : ℕ → Bool
is_space c = c == b' ' || (ltb 8 c && ltb c 14)

unfoldable pub trim_left : Text → Text
trim_left [] = []
trim_left (c ∷ s) = let rest = trim_left s in if is_space c then rest else c ∷ s

unfoldable pub trim_space : Text → Text
unfolding trim_left
trim_space s = reverse (trim_left (reverse (trim_left s)))

-- `strings.Split` at one byte: at least one part.
abbrev pub split_from : ℕ → Text → Text → List Text
split_from sep cur [] = reverse cur ∷ []
split_from sep cur (c ∷ s) =
    let closed = reverse cur ∷ split_from sep [] s in
    let longer = split_from sep (c ∷ cur) s in if c == sep then closed else longer

unfoldable pub split : ℕ → Text → List Text
split sep s = split_from sep [] s
