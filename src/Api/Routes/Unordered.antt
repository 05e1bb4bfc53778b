-- ===== src/Api/Routes/Unordered.antt =====
-- No request fits two of the routes, so the order of their registration does not count.
use lukscrypt.Prelude.{
  Text, text, text_beq, text_beq_iff, Bool, true, false, not, ◌&&◌, ◌||◌, Option, none, some, List,
  [], ◌∷◌, ◌≡◌, refl, All, Any, subst, arith, Option-cases, inl, inr,
}
use lukscrypt.Api.Routes.{
  Segment, lit, wild, Pattern, fits_method, with_value, bind_path, fits, route, Endpoint, routes,
}

-- Some path fits both.
meet : List Segment → List Segment → Bool
meet [] [] = true
meet [] (q ∷ qs) = false
meet (p ∷ ps) [] = false
meet (lit s ∷ ps) (lit t ∷ qs) = text_beq s t && meet ps qs
meet (lit s ∷ ps) (wild ∷ qs) = meet ps qs
meet (wild ∷ ps) (q ∷ qs) = meet ps qs

-- Some method fits both.
share : (p q : Text) → Bool
share p q =
    text_beq p q
    || (text_beq p (text "GET") && text_beq q (text "HEAD"))
    || (text_beq p (text "HEAD") && text_beq q (text "GET"))

overlap : Pattern → Pattern → Bool
unfolding meet share
overlap p q = share p.method q.method && meet p.segments q.segments

fits_method-share :
    (p q m : Text) → fits_method p m ≡ true → fits_method q m ≡ true → share p q ≡ true
unfolding fits_method share
fits_method-share p q m h k = ground (
  arith,
  text_beq_iff p m,
  text_beq_iff q m,
  text_beq_iff p q,
  text_beq_iff p (text "GET"),
  text_beq_iff q (text "GET"),
  text_beq_iff m (text "HEAD"),
  text_beq_iff p (text "HEAD"),
  text_beq_iff q (text "HEAD"),
)

with_value-some :
    (t : Text) (o : Option (List Text)) (vs : List Text)
    → with_value t o ≡ some vs
    → (ws : List Text) × (o ≡ some ws)
with_value-some t none vs h = cc
with_value-some t (some ws) vs h = (ws, refl)

bind_path-meet :
    (ps qs : List Segment) (path vs ws : List Text)
    → bind_path ps path ≡ some vs
    → bind_path qs path ≡ some ws
    → meet ps qs ≡ true
unfolding bind_path meet
bind_path-meet [] [] path vs ws h k = refl
bind_path-meet [] (q ∷ qs) [] vs ws h k = cc
bind_path-meet [] (q ∷ qs) (t ∷ ts) vs ws h k = cc
bind_path-meet (p ∷ ps) [] [] vs ws h k = cc
bind_path-meet (p ∷ ps) [] (t ∷ ts) vs ws h k = cc
bind_path-meet (lit s ∷ ps) (q ∷ qs) [] vs ws h k = cc
bind_path-meet (wild ∷ ps) (q ∷ qs) [] vs ws h k = cc
bind_path-meet (lit s ∷ ps) (lit t ∷ qs) (x ∷ xs) vs ws h k =
    ground
      (arith, text_beq_iff s x, text_beq_iff t x, text_beq_iff s t, bind_path-meet ps qs xs vs ws)
bind_path-meet (lit s ∷ ps) (wild ∷ qs) (x ∷ xs) vs ws h k =
    let (us, e) = with_value-some x (bind_path qs xs) ws k in
    ground (arith, bind_path-meet ps qs xs vs us)
bind_path-meet (wild ∷ ps) (lit t ∷ qs) (x ∷ xs) vs ws h k =
    let (us, e) = with_value-some x (bind_path ps xs) vs h in
    ground (arith, bind_path-meet ps qs xs us ws)
bind_path-meet (wild ∷ ps) (wild ∷ qs) (x ∷ xs) vs ws h k =
    let (us, e) = with_value-some x (bind_path ps xs) vs h in
    let (us', e') = with_value-some x (bind_path qs xs) ws k in bind_path-meet ps qs xs us us' e e'

fits-overlap :
    (p q : Pattern) (m : Text) (path vs ws : List Text)
    → fits p m path ≡ some vs
    → fits q m path ≡ some ws
    → overlap p q ≡ true
unfolding fits overlap
fits-overlap p q m path vs ws h k =
    ground (
      arith,
      fits_method-share p.method q.method m,
      bind_path-meet p.segments q.segments path vs ws,
    )

passed_over :
    (p q : Pattern) (m : Text) (path vs : List Text)
    → overlap p q ≡ false
    → fits q m path ≡ some vs
    → fits p m path ≡ none
passed_over p q m path vs apart h = elim (Option-cases (fits p m path)) [
  | inl e ↦ e
  | inr (ws, e) ↦ let both = fits-overlap p q m path ws vs e h in cc
]

module _ {A : Type 0} where
  abbrev clear_of : Pattern → List (Pattern × A) → Bool
  clear_of p [] = true
  clear_of p ((q, a) ∷ ps) = not (overlap p q) && clear_of p ps

  abbrev all_apart : List (Pattern × A) → Bool
  all_apart [] = true
  all_apart ((p, a) ∷ ps) = clear_of p ps && all_apart ps

  -- A pattern that fits a request decides it, wherever it stands.
  abbrev pub IsDecisive : (rs : List (Pattern × A)) → Pattern × A → Type 0
  IsDecisive rs (p, a) =
      (m : Text) (path vs : List Text) → fits p m path ≡ some vs → route rs m path ≡ some (a, vs)

  IsDecisive-later :
      (p : Pattern) (a : A) (ps qs : List (Pattern × A))
      → clear_of p qs ≡ true
      → All (IsDecisive ps) qs
      → All (IsDecisive ((p, a) ∷ ps)) qs
  unfolding route
  IsDecisive-later p a ps [] c h = tt
  IsDecisive-later p a ps ((q, b) ∷ qs) c (h, hs) = (
    λ m path vs k. rw (passed_over p q m path vs (ground (arith, c)) k) (h m path vs k),
    IsDecisive-later p a ps qs (ground (arith, c)) hs,
  )

  all_apart-IsDecisive : (rs : List (Pattern × A)) → all_apart rs ≡ true → All (IsDecisive rs) rs
  unfolding route
  all_apart-IsDecisive [] c = tt
  all_apart-IsDecisive ((p, a) ∷ ps) c = (
    λ m path vs k. rw k refl,
    IsDecisive-later p a ps ps (ground (arith, c)) (all_apart-IsDecisive ps (ground (arith, c))),
  )

routes_apart : all_apart routes ≡ true
unfolding routes overlap meet share text text_beq
routes_apart = refl

pick : {A : Type 0} (P : A → Type 0) (y : A) (xs : List A) → All P xs → Any (λ x. x ≡ y) xs → P y
pick P y [] h k = absurd k
pick P y (x ∷ xs) (h, hs) (inl e) = subst P e h
pick P y (x ∷ xs) (h, hs) (inr k) = pick P y xs hs k

-- A request that fits one of the routes behind the credentials is handed to that route's handler
-- with the values of its path, wherever the route stands among the others.
pub routes-IsDecisive :
    (p : Pattern) (e : Endpoint) (method : Text) (path values : List Text)
    → Any (λ x. x ≡ (p, e)) routes
    → fits p method path ≡ some values
    → route routes method path ≡ some (e, values)
routes-IsDecisive p e method path values h k =
    pick (IsDecisive routes) (p, e) routes (all_apart-IsDecisive routes routes_apart) h method path
      values k
