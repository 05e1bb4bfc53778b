-- ===== src/Api/Reserve/Keys.antt =====
-- The sets of reserved names and paths.
use lukscrypt.Prelude.{
  Text, true, false, List, [], ◌∷◌, ◌≡◌, inl, inr, text_beq, text_beq_iff, text_beq_refl,
  Bool-cases, arith,
}
use lukscrypt.Api.Reserve.{has_key, delete_key}

pub has_key-cons : (x y : Text) (ks : List Text) → has_key x ks ≡ true → has_key x (y ∷ ks) ≡ true
unfolding has_key
has_key-cons x y ks h = ground arith

pub first_key : (x : Text) (ks : List Text) → has_key x (x ∷ ks) ≡ true
unfolding has_key
first_key x ks = ground (arith, text_beq_refl x)

pub has_key-other :
    (x y : Text) (ks : List Text)
    → has_key x ks ≡ true
    → has_key y ks ≡ false
    → text_beq x y ≡ false
has_key-other x y ks h k = elim (Bool-cases (text_beq x y)) [
  | inl same ↦ let e = (text_beq_iff x y).0 same in absurd (cc (e))
  | inr other ↦ other
]

pub has_key-delete_key :
    (x y : Text) (ks : List Text)
    → text_beq y x ≡ false
    → has_key x ks ≡ true
    → has_key x (delete_key y ks) ≡ true
unfolding has_key delete_key
has_key-delete_key x y [] d h = cc
has_key-delete_key x y (k ∷ ks) d h =
    ground
      (arith, has_key-delete_key x y ks d, text_beq_iff k x, text_beq_iff k y, text_beq_iff y x)

pub text_beq_sym : (x y : Text) → text_beq x y ≡ text_beq y x
text_beq_sym x y = ground (arith, text_beq_iff x y, text_beq_iff y x)
