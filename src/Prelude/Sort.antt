-- ===== src/Prelude/Sort.antt =====
-- `ORDER BY`: a stable insertion sort by the test that one row comes before another.
use mathlib.Core.Path.{◌≡◌, refl}
use mathlib.Core.Logic.{inl, inr}
use mathlib.Core.Bool.{Bool, true, false}
use mathlib.Core.List.{List, [], ◌∷◌, Perm}
use mathlib.Core.List.Perm
use lukscrypt.Prelude.Tests.{if◌then◌else◌, Bool-cases}
use lukscrypt.Prelude.Lists.{All}

module _ {A : Type 0} (before : A → A → Bool) where
  place : A → List A → List A
  place x [] = x ∷ []
  place x (y ∷ ys) = let rest = place x ys in if before y x then y ∷ rest else x ∷ y ∷ ys

  unfoldable pub order_by : List A → List A
  unfolding place
  order_by [] = []
  order_by (x ∷ xs) = place x (order_by xs)

  -- No later entry comes before an earlier one.
  abbrev pub InOrder : List A → Type 0
  InOrder [] = Unit
  InOrder (x ∷ xs) = All (λ y. before y x ≡ false) xs × InOrder xs

  place_first : (x : A) (xs : List A) → All (λ y. before y x ≡ false) xs → place x xs ≡ x ∷ xs
  unfolding place
  place_first x [] h = refl
  place_first x (y ∷ ys) (h, _) = rw h refl

  pub order_by-InOrder : (xs : List A) → InOrder xs → order_by xs ≡ xs
  unfolding order_by
  order_by-InOrder [] h = refl
  order_by-InOrder (x ∷ xs) (h, k) = rw (order_by-InOrder xs k) (place_first x xs h)

  place-perm : (x : A) (xs : List A) → Perm (place x xs) (x ∷ xs)
  unfolding place
  place-perm x [] = Perm.rfl
  place-perm x (y ∷ ys) = elim (Bool-cases (before y x)) [
    | inl e ↦ rw e (Perm.trans (Perm.cons y (place-perm x ys)) (Perm.swap x y ys))
    | inr e ↦ rw e Perm.rfl
  ]

  -- The rows are those of the table.
  pub order_by-perm : (xs : List A) → Perm (order_by xs) xs
  unfolding order_by
  order_by-perm [] = Perm.rfl
  order_by-perm (x ∷ xs) = Perm.trans (place-perm x (order_by xs)) (Perm.cons x (order_by-perm xs))

  module _ (asym : (x y : A) → before x y ≡ true → before y x ≡ false)
      (trans : (x y z : A) → before y x ≡ false → before z y ≡ false → before z x ≡ false) where
    All-place : (P : A → Type 0) (x : A) (xs : List A) → P x → All P xs → All P (place x xs)
    unfolding place
    All-place P x [] h k = (h, tt)
    All-place P x (y ∷ ys) h (k, ks) = elim (Bool-cases (before y x)) [
      | inl e ↦ rw e (k, All-place P x ys h ks)
      | inr e ↦ rw e (h, (k, ks))
    ]

    All-later :
        (x y : A) (zs : List A)
        → before y x ≡ false
        → All (λ z. before z y ≡ false) zs
        → All (λ z. before z x ≡ false) zs
    All-later x y [] h k = tt
    All-later x y (z ∷ zs) h (k, ks) = (trans x y z h k, All-later x y zs h ks)

    place-InOrder : (x : A) (xs : List A) → InOrder xs → InOrder (place x xs)
    unfolding place
    place-InOrder x [] h = (tt, tt)
    place-InOrder x (y ∷ ys) (h, k) = elim (Bool-cases (before y x)) [
      | inl e ↦ rw e (All-place (λ z. before z y ≡ false) x ys (asym y x e) h, place-InOrder x ys k)
      | inr e ↦ rw e ((e, All-later x y ys e h), (h, k))
    ]

    -- Sorting by a test that is asymmetric, and whose negation is transitive, puts rows in order.
    pub order_by-ordered : (xs : List A) → InOrder (order_by xs)
    unfolding order_by
    order_by-ordered [] = tt
    order_by-ordered (x ∷ xs) = place-InOrder x (order_by xs) (order_by-ordered xs)
