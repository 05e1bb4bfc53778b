-- ===== src/Db/Listing/Dated.antt =====
-- The order of the rows in the listings.
use lukscrypt.Prelude.{
  ◌≤◌, ◌≡◌, ◌⊎◌, sym, subst, ◌∙◌, Bool-cases, refl, inl, inr, true, false, List, [], ◌∷◌, All,
  arith, nat_eq, Text, text_eq, text_beq_iff, InOrder, order_by, order_by-perm, order_by-ordered,
}
use mathlib.Core.List.{Perm}
use mathlib.Core.List.Perm
use lukscrypt.Sys.{Vault}
use lukscrypt.Db.{Db, ApiToken}
use lukscrypt.Db.Listing.{text_ltb, vault_before, list_vaults, token_before, list_api_tokens}

text_ltb_irrefl : (s : Text) → text_ltb s s ≡ false
unfolding text_ltb
text_ltb_irrefl [] = refl
text_ltb_irrefl (x ∷ s) = ground (arith, text_ltb_irrefl s)

text_ltb_asym : (s t : Text) → text_ltb s t ≡ true → text_ltb t s ≡ false
unfolding text_ltb
text_ltb_asym [] [] h = refl
text_ltb_asym [] (y ∷ t) h = refl
text_ltb_asym (x ∷ s) [] h = cc
text_ltb_asym (x ∷ s) (y ∷ t) h = ground (arith, text_ltb_asym s t)

-- "Not before" is transitive.
text_ltb_trans : (s t u : Text) → text_ltb t s ≡ false → text_ltb u t ≡ false → text_ltb u s ≡ false
unfolding text_ltb
text_ltb_trans [] [] [] h k = refl
text_ltb_trans [] [] (z ∷ u) h k = refl
text_ltb_trans [] (y ∷ t) [] h k = refl
text_ltb_trans [] (y ∷ t) (z ∷ u) h k = refl
text_ltb_trans (x ∷ s) [] u h k = cc
text_ltb_trans (x ∷ s) (y ∷ t) [] h k = cc
text_ltb_trans (x ∷ s) (y ∷ t) (z ∷ u) h k = ground (arith, text_ltb_trans s t u)

text_ltb_strict : (s t u : Text) → text_ltb s t ≡ true → text_ltb t u ≡ true → text_ltb s u ≡ true
text_ltb_strict s t u h k = elim (Bool-cases (text_ltb s u)) [
  | inl e ↦ e
  | inr e ↦ let no' = text_ltb_trans t u s (text_ltb_asym t u k) e in cc
]

-- Texts of which neither is before the other are one.
text_ltb_eq : (s t : Text) → text_ltb s t ≡ false → text_ltb t s ≡ false → s ≡ t
unfolding text_ltb
text_ltb_eq [] [] h k = refl
text_ltb_eq [] (y ∷ t) h k = cc
text_ltb_eq (x ∷ s) [] h k = cc
text_ltb_eq (x ∷ s) (y ∷ t) h k = ground (arith, text_ltb_eq s t)

-- No vault is created after an earlier one of the list.
abbrev pub IsNewestFirst : List Vault → Type 0
IsNewestFirst [] = Unit
IsNewestFirst (v ∷ vs) = All (λ w. text_ltb v.created_at w.created_at ≡ false) vs × IsNewestFirst vs

vaults_sorted : (vs : List Vault) → IsNewestFirst (order_by vault_before vs)
unfolding vault_before
vaults_sorted vs = newest (order_by vault_before vs) (
    order_by-ordered vault_before (λ v w. text_ltb_asym w.created_at v.created_at)
      (λ u v w h k. text_ltb_trans w.created_at v.created_at u.created_at k h) vs)
  where
    newest : (ws : List Vault) → InOrder vault_before ws → IsNewestFirst ws
    newest [] h = tt
    newest (w ∷ ws) (h, k) = (h, newest ws k)

token_before_asym : (t u : ApiToken) → token_before t u ≡ true → token_before u t ≡ false
unfolding token_before
token_before_asym t u h = ground (
  arith,
  text_ltb_asym u.created_at t.created_at,
  text_ltb_asym t.created_at u.created_at,
  text_beq_iff u.created_at t.created_at,
  text_beq_iff t.created_at u.created_at,
)

-- Of two tokens, the first is younger, or as old with an id that is not below.
abbrev pub IsYounger : ApiToken → ApiToken → Type 0
IsYounger t u =
    (text_ltb u.created_at t.created_at ≡ true) ⊎ ((u.created_at ≡ t.created_at) × (u.id ≤ t.id))

token_before-IsYounger : (t u : ApiToken) → token_before u t ≡ false → IsYounger t u
unfolding token_before
token_before-IsYounger t u h = elim (Bool-cases (text_ltb u.created_at t.created_at)) [
  | inl younger ↦ inl younger
  | inr same ↦
      let e : u.created_at ≡ t.created_at =
        text_ltb_eq u.created_at t.created_at same (ground arith) in
      inr (e, ground (arith, text_beq_iff t.created_at u.created_at, sym e))
]

IsYounger-token_before : (t u : ApiToken) → IsYounger t u → token_before u t ≡ false
unfolding token_before
IsYounger-token_before t u (inl h) =
    ground
      (arith, text_ltb_asym u.created_at t.created_at h, text_beq_iff t.created_at u.created_at)
IsYounger-token_before t u (inr (e, h)) =
    ground (arith, text_ltb_irrefl t.created_at, text_beq_iff t.created_at u.created_at)

IsYounger-trans : (t u w : ApiToken) → IsYounger t u → IsYounger u w → IsYounger t w
IsYounger-trans t u w (inl h) (inl k) = inl (text_ltb_strict _ _ _ k h)
IsYounger-trans t u w (inl h) (inr (f, b)) =
    inl (subst (λ x. text_ltb x t.created_at ≡ true) (sym f) h)
IsYounger-trans t u w (inr (e, a)) (inl k) = inl (subst (λ x. text_ltb w.created_at x ≡ true) e k)
IsYounger-trans t u w (inr (e, a)) (inr (f, b)) = inr (f ∙ e, omega arith)

abbrev pub AreNewestFirst : List ApiToken → Type 0
AreNewestFirst [] = Unit
AreNewestFirst (t ∷ ts) = All (IsYounger t) ts × AreNewestFirst ts

tokens_sorted : (ts : List ApiToken) → AreNewestFirst (order_by token_before ts)
tokens_sorted ts = newest (order_by token_before ts) (
    order_by-ordered token_before token_before_asym
      (λ t u w h k.
        IsYounger-token_before t w
          (IsYounger-trans t u w (token_before-IsYounger t u h) (token_before-IsYounger u w k)))
      ts)
  where
    newest : (us : List ApiToken) → InOrder token_before us → AreNewestFirst us
    newest [] h = tt
    newest (u ∷ us) (h, k) = (younger us h, newest us k)
      where
        younger :
            (ws : List ApiToken) → All (λ w. token_before w u ≡ false) ws → All (IsYounger u) ws
        younger [] h = tt
        younger (w ∷ ws) (h, k) = (token_before-IsYounger u w h, younger ws k)

-- Whatever the tables hold, and in whatever order the engine reads the vaults: the listing of the
-- vaults has the table's rows, each once, and no row is of a later time than one before it; the
-- listing of the tokens has the table's rows, each once, and each is of an earlier time than those
-- before it, or of the same time with an id that is not above theirs.
pub listings-AreDated :
    (scan : List Vault → List Vault)
    → ((vs : List Vault) → Perm (scan vs) vs)
    → (d : Db)
    → Perm (list_vaults scan d) d.vaults
      × IsNewestFirst (list_vaults scan d)
      × Perm (list_api_tokens d) d.tokens
      × AreNewestFirst (list_api_tokens d)
unfolding list_vaults list_api_tokens
listings-AreDated scan rows d = (
  Perm.trans (order_by-perm vault_before (scan d.vaults)) (rows d.vaults),
  vaults_sorted (scan d.vaults),
  order_by-perm token_before d.tokens,
  tokens_sorted d.tokens,
)
