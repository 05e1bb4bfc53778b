-- ===== src/Api/Sessions/Cleanup.antt =====
-- The clean-up of expired sessions cannot be observed.
use lukscrypt.Prelude.{
  ℕ, ◌≤◌, ◌≡◌, refl, inl, inr, Option, none, some, [], ◌∷◌, arith, if◌then◌else◌, Bool-cases,
  nat_eq, Text, text_beq, text_beq_iff, text_eq,
}
use lukscrypt.Prelude.Dict.{lookup}
use lukscrypt.Prelude.Dict.{NodupKeys}
use lukscrypt.Api.Sessions.{
  Session, Policy, Sessions, is_expired, judge, valid_session, cleanup_sessions,
}

abbrev pub unless_expired : Policy → ℕ → Option Session → Option Session
unless_expired p now none = none
unless_expired p now (some s) = if is_expired p now s then none else some s

pub lookup-cleanup_sessions :
    (p : Policy) (now : ℕ) (token : Text) (m : Sessions)
    → NodupKeys m
    → lookup token (cleanup_sessions p now m) ≡ unless_expired p now (lookup token m)
unfolding lookup cleanup_sessions
lookup-cleanup_sessions p now token [] u = refl
lookup-cleanup_sessions p now token ((k, s) ∷ m) (fresh, u) =
    let ih = lookup-cleanup_sessions p now token m u in
    elim (Bool-cases (text_beq k token)) [
      | inl same ↦
          let absent : lookup token m ≡ none = rw (← (text_beq_iff k token).0 same) fresh in
          elim (Bool-cases (is_expired p now s)) [
            | inl gone ↦ rw (same, gone, ih, absent) refl
            | inr live ↦ rw (same, live) (rw same)
          ]
      | inr other ↦ elim (Bool-cases (is_expired p now s)) [
        | inl gone ↦ rw (other, gone) ih
        | inr live ↦ rw (other, live) (rw other ih)
      ]
    ]

judge-unless_expired :
    (p : Policy) (now later : ℕ) (token : Text) (m m' : Sessions) (o : Option Session)
    → now ≤ later
    → (judge p later token m' (unless_expired p now o)).0 ≡ (judge p later token m o).0
unfolding judge
judge-unless_expired p now later token m m' none h = refl
judge-unless_expired p now later token m m' (some s) h = ground arith

-- From then on, every cookie gets the verdict that it would have got without the clean-up.
pub valid_session-cleanup_sessions :
    (p : Policy) (now later : ℕ) (cookie : Option Text) (m : Sessions)
    → NodupKeys m
    → now ≤ later
    → (valid_session p later cookie (cleanup_sessions p now m)).0
      ≡ (valid_session p later cookie m).0
unfolding valid_session
valid_session-cleanup_sessions p now later none m u h = refl
valid_session-cleanup_sessions p now later (some []) m u h = refl
valid_session-cleanup_sessions p now later (some (c ∷ token)) m u h =
    rw (lookup-cleanup_sessions p now (c ∷ token) m u) (
      judge-unless_expired p now later (c ∷ token) m (cleanup_sessions p now m)
        (lookup (c ∷ token) m) h)
