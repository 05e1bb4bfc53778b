-- ===== src/Api/Sessions/Laws.antt =====
-- When a session cookie is accepted, and for how long.
use lukscrypt.Prelude.{
  ℕ, ◌+◌, ◌≤◌, ◌<◌, ◌≡◌, refl, ◌≢◌, ◌↔◌, inl, inr, true, false, Option, none, some, List, [], ◌∷◌,
  arith, Bool-cases, Option-cases, nat_eq, All, Text, text_beq, text_beq_iff, text_eq,
}
use lukscrypt.Prelude.Dict.{lookup, insert, erase}
use lukscrypt.Api.Sessions.{
  Session, Policy, Sessions, is_expired, judge, valid_session, cleanup_sessions, Event, request,
  login, logout, cleanup, step, run,
}

-- A session is live if it was seen within the idle time and created within the maximal age.
abbrev pub IsLive : Policy → ℕ → Session → Type 0
IsLive p now s = (now ≤ s.last_seen + p.idle) × (now ≤ s.created_at + p.max_age)

-- A cookie is accepted exactly when a live session has its token, which is not empty.
pub valid_session_iff :
    (p : Policy) (now : ℕ) (token : Text) (m : Sessions)
    → ((valid_session p now (some token) m).0 ≡ true)
      ↔ ((token ≢ []) × ((s : Session) × (lookup token m ≡ some s) × IsLive p now s))
unfolding valid_session
valid_session_iff p now [] m = (λ h. cc, λ h. absurd (h.0 refl))
valid_session_iff p now (c ∷ token) m = elim (Option-cases (lookup (c ∷ token) m)) [
  | inl e ↦ ground arith
  | inr (s, e) ↦ (λ h. (cc, (s, e, ground arith)), λ h. ground arith)
]

-- No session under the token was created after `t`.
abbrev pub IsOld : Text → ℕ → Sessions → Type 0
IsOld token t [] = Unit
IsOld token t ((k, s) ∷ m) = (k ≡ token → s.created_at ≤ t) × IsOld token t m

module _ (token : Text) (t : ℕ) where
  IsOld-lookup :
      (m : Sessions) (s : Session) → IsOld token t m → lookup token m ≡ some s → s.created_at ≤ t
  unfolding lookup
  IsOld-lookup [] s h e = cc
  IsOld-lookup ((k, r) ∷ m) s (h, hs) e =
      ground (arith, text_beq_iff k token, h, IsOld-lookup m s hs)

  IsOld-insert :
      (k : Text) (s : Session) (m : Sessions)
      → (k ≡ token → s.created_at ≤ t)
      → IsOld token t m
      → IsOld token t (insert k s m)
  unfolding insert
  IsOld-insert k s [] h _ = (h, tt)
  IsOld-insert k s ((j, r) ∷ m) h (g, gs) = elim (Bool-cases (text_beq j k)) [
    | inl same ↦ rw same (h, gs)
    | inr other ↦ rw other (g, IsOld-insert k s m h gs)
  ]

  IsOld-erase : (k : Text) (m : Sessions) → IsOld token t m → IsOld token t (erase k m)
  unfolding erase
  IsOld-erase k [] _ = tt
  IsOld-erase k ((j, r) ∷ m) (g, gs) = elim (Bool-cases (text_beq j k)) [
    | inl same ↦ rw same (IsOld-erase k m gs)
    | inr other ↦ rw other (g, IsOld-erase k m gs)
  ]

  IsOld-cleanup :
      (p : Policy) (now : ℕ) (m : Sessions)
      → IsOld token t m
      → IsOld token t (cleanup_sessions p now m)
  unfolding cleanup_sessions
  IsOld-cleanup p now [] _ = tt
  IsOld-cleanup p now ((j, r) ∷ m) (g, gs) = elim (Bool-cases (is_expired p now r)) [
    | inl gone ↦ rw gone (IsOld-cleanup p now m gs)
    | inr live ↦ rw live (g, IsOld-cleanup p now m gs)
  ]

  IsOld-judge :
      (p : Policy) (now : ℕ) (k : Text) (m : Sessions) (o : Option Session)
      → lookup k m ≡ o
      → IsOld token t m
      → IsOld token t (judge p now k m o).1
  unfolding judge
  IsOld-judge p now k m none e h = h
  IsOld-judge p now k m (some s) e h = elim (Bool-cases (is_expired p now s)) [
    | inl gone ↦ rw gone (IsOld-erase k m h)
    | inr live ↦ rw live (
        IsOld-insert k (record s { last_seen = now }) m (λ same. IsOld-lookup m s h (rw (← same) e))
          h)
  ]

  -- The event does not log in under the token.
  abbrev pub IsNoLogin : Event → Type 0
  IsNoLogin (login now k) = k ≢ token
  IsNoLogin _ = Unit

  IsOld-step :
      (p : Policy) (e : Event) (m : Sessions)
      → IsNoLogin e
      → IsOld token t m
      → IsOld token t (step p e m)
  unfolding step
  IsOld-step p (request now none) m n h = h
  IsOld-step p (request now (some [])) m n h = h
  IsOld-step p (request now (some (c ∷ k))) m n h =
      IsOld-judge p now (c ∷ k) m (lookup (c ∷ k) m) refl h
  IsOld-step p (login now k) m n h = IsOld-insert k _ m (λ same. absurd (n same)) h
  IsOld-step p (logout none) m n h = h
  IsOld-step p (logout (some k)) m n h = IsOld-erase k m h
  IsOld-step p (cleanup now) m n h = IsOld-cleanup p now m h

  IsOld-run :
      (p : Policy) (es : List Event) (m : Sessions)
      → All IsNoLogin es
      → IsOld token t m
      → IsOld token t (run p es m)
  unfolding run
  IsOld-run p [] m n h = h
  IsOld-run p (e ∷ es) m (n, ns) h = IsOld-run p es (step p e m) ns (IsOld-step p e m n h)

-- If no session under a token was created after `t`, then whatever requests, logouts, clean-ups and
-- logins under other tokens follow, a cookie with the token is refused once the maximal age has
-- passed since `t`: use does not prolong it.
pub run-max_age :
    (p : Policy) (token : Text) (t now : ℕ) (es : List Event) (m : Sessions)
    → IsOld token t m
    → All (IsNoLogin token t) es
    → t + p.max_age < now
    → (valid_session p now (some token) (run p es m)).0 ≡ false
run-max_age p token t now es m old none' late =
    elim (Bool-cases (valid_session p now (some token) (run p es m)).0) [
      | inr refused ↦ refused
      | inl accepted ↦
          let (_, (s, found, live)) = (valid_session_iff p now token (run p es m)).0 accepted in
          let created =
            IsOld-lookup token t (run p es m) s (IsOld-run token t p es m none' old) found in
          absurd (omega arith)
    ]
