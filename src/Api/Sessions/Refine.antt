-- ===== src/Api/Sessions/Refine.antt =====
-- The sessions as one ticket for each token.
use lukscrypt.Prelude.{
  ℕ, ◌≤◌, ◌≡◌, ◌≢◌, refl, sym, ◌∙◌, ap, inl, inr, Bool, true, false, none, some, List, [], ◌∷◌,
  arith, Bool-cases, nat_eq, Text, text_beq, text_beq_iff, text_eq,
}
use lukscrypt.Prelude.Dict.{
  lookup, lookup-insert, lookup-insert_self, lookup-erase, lookup-erase_self, discard,
  discard-NodupKeys, NodupKeys, insert-NodupKeys, erase-NodupKeys,
}
use lukscrypt.Api.Sessions.{
  Policy, Sessions, is_expired, judge, valid_session, cleanup_sessions, Event, request, login,
  logout, cleanup, step, run,
}
use lukscrypt.Api.Sessions.Ticket.{
  Ticket, touch, accepts, use_ticket, use_all, AtLeast, clock, AreLater,
}
use lukscrypt.Api.Sessions.Cleanup.{unless_expired, lookup-cleanup_sessions}

cleanup_sessions_lem :
    (p : Policy) (now : ℕ) (m : Sessions) → cleanup_sessions p now m ≡ discard (is_expired p now) m
unfolding cleanup_sessions discard
cleanup_sessions_lem p now [] = refl
cleanup_sessions_lem p now ((k, s) ∷ m) = rw (cleanup_sessions_lem p now m) refl

cleanup-NodupKeys :
    (p : Policy) (now : ℕ) (m : Sessions) → NodupKeys m → NodupKeys (cleanup_sessions p now m)
cleanup-NodupKeys p now m u =
    rw (cleanup_sessions_lem p now m) (discard-NodupKeys (is_expired p now) m u)

module _ (p : Policy) where
  -- What both views agree on: the session, unless it has expired.
  abbrev Agrees : ℕ → Ticket → Ticket → Type 0
  Agrees now a b = unless_expired p now a ≡ unless_expired p now b

  unless_expired-later :
      (now later : ℕ) (t : Ticket)
      → now ≤ later
      → unless_expired p later (unless_expired p now t) ≡ unless_expired p later t
  unless_expired-later now later none h = refl
  unless_expired-later now later (some s) h = ground arith

  Agrees-later : (now later : ℕ) (a b : Ticket) → now ≤ later → Agrees now a b → Agrees later a b
  Agrees-later now later a b h e =
      sym (unless_expired-later now later a h)
      ∙ ap (unless_expired p later) e
      ∙ unless_expired-later now later b h

  abbrev is_some : Ticket → Bool
  is_some none = false
  is_some (some s) = true

  abbrev renewed : ℕ → Ticket → Ticket
  renewed now none = none
  renewed now (some s) = some (record s { last_seen = now })

  accepts_lem : (now : ℕ) (t : Ticket) → accepts p now t ≡ is_some (unless_expired p now t)
  accepts_lem now none = refl
  accepts_lem now (some s) = ground arith

  accepts-Agrees : (now : ℕ) (a b : Ticket) → Agrees now a b → accepts p now a ≡ accepts p now b
  accepts-Agrees now a b e = accepts_lem now a ∙ ap is_some e ∙ sym (accepts_lem now b)

  abbrev touched : ℕ → Ticket → Ticket
  touched now t = touch now (unless_expired p now t) t

  touched_lem :
      (now : ℕ) (t : Ticket)
      → unless_expired p now (touched now t) ≡ renewed now (unless_expired p now t)
  touched_lem now none = refl
  touched_lem now (some s) = elim (Bool-cases (is_expired p now s)) [
    | inl gone ↦ rw gone (rw gone refl)
    | inr live ↦
        let still : is_expired p now (record s { last_seen = now }) ≡ false =
          ground (arith, live) in
        rw live (rw still refl)
  ]

  touched-Agrees :
      (now : ℕ) (a b : Ticket) → Agrees now a b → Agrees now (touched now a) (touched now b)
  touched-Agrees now a b e = touched_lem now a ∙ ap (renewed now) e ∙ sym (touched_lem now b)

  module _ (token : Text) where
    judged_lem :
        (now : ℕ) (m : Sessions) (o : Ticket)
        → lookup token m ≡ o
        → Agrees now (touched now o) (lookup token (judge p now token m o).1)
    unfolding judge
    judged_lem now m none e = rw e refl
    judged_lem now m (some s) e = elim (Bool-cases (is_expired p now s)) [
      | inl gone ↦ rw (gone, lookup-erase_self token m) (rw gone refl)
      | inr live ↦ rw (live, lookup-insert_self token (record s { last_seen = now }) m) refl
    ]

    other_lem :
        (now : ℕ) (k : Text) (m : Sessions) (o : Ticket)
        → text_beq k token ≡ false
        → lookup token (judge p now k m o).1 ≡ lookup token m
    unfolding judge
    other_lem now k m none other = refl
    other_lem now k m (some s) other = elim (Bool-cases (is_expired p now s)) [
      | inl gone ↦ rw (gone, lookup-erase k token m, other) refl
      | inr live ↦ rw (live, lookup-insert k token (record s { last_seen = now }) m, other) refl
    ]

    judge-NodupKeys :
        (now : ℕ) (k : Text) (m : Sessions) (o : Ticket)
        → NodupKeys m
        → NodupKeys (judge p now k m o).1
    unfolding judge
    judge-NodupKeys now k m none u = u
    judge-NodupKeys now k m (some s) u = elim (Bool-cases (is_expired p now s)) [
      | inl gone ↦ rw gone (erase-NodupKeys k m u)
      | inr live ↦ rw live (insert-NodupKeys k (record s { last_seen = now }) m u)
    ]

    step-NodupKeys : (e : Event) (m : Sessions) → NodupKeys m → NodupKeys (step p e m)
    unfolding step
    step-NodupKeys (request now none) m u = u
    step-NodupKeys (request now (some [])) m u = u
    step-NodupKeys (request now (some (c ∷ k))) m u =
        judge-NodupKeys now (c ∷ k) m (lookup (c ∷ k) m) u
    step-NodupKeys (login now k) m u = insert-NodupKeys k _ m u
    step-NodupKeys (logout none) m u = u
    step-NodupKeys (logout (some k)) m u = erase-NodupKeys k m u
    step-NodupKeys (cleanup now) m u = cleanup-NodupKeys p now m u

    request_lem :
        (t now : ℕ) (k : Text) (m : Sessions) (a : Ticket)
        → t ≤ now
        → Agrees t a (lookup token m)
        → Agrees now
            (use_ticket p token (request now (some k)) a)
            (lookup token (judge p now k m (lookup k m)).1)
    request_lem t now k m a h e =
        let later = Agrees-later t now a (lookup token m) h e in
        elim (Bool-cases (text_beq k token)) [
          | inl same ↦
              rw (same, (text_beq_iff k token).0 same)
                (touched-Agrees now a (lookup token m) later
                  ∙ judged_lem now m (lookup token m) refl)
          | inr other ↦ rw (other, other_lem now k m (lookup k m) other) later
        ]

    step-Agrees :
        (t : ℕ) (e : Event) (m : Sessions) (a : Ticket)
        → token ≢ []
        → NodupKeys m
        → AtLeast t e
        → Agrees t a (lookup token m)
        → Agrees (clock t e) (use_ticket p token e a) (lookup token (step p e m))
    unfolding step
    step-Agrees t (request now none) m a some' u h e = Agrees-later t now a (lookup token m) h e
    step-Agrees t (request now (some [])) m a some' u h e = elim (Bool-cases (text_beq [] token)) [
      | inl same ↦ absurd (some' (sym ((text_beq_iff [] token).0 same)))
      | inr other ↦ rw other (Agrees-later t now a (lookup token m) h e)
    ]
    step-Agrees t (request now (some (c ∷ k))) m a some' u h e = request_lem t now (c ∷ k) m a h e
    step-Agrees t (login now k) m a some' u h e = elim (Bool-cases (text_beq k token)) [
      | inl same ↦
          rw (lookup-insert k token (record { created_at = now; last_seen = now }) m, same) refl
      | inr other ↦
          rw (lookup-insert k token (record { created_at = now; last_seen = now }) m, other)
            (Agrees-later t now a (lookup token m) h e)
    ]
    step-Agrees t (logout none) m a some' u h e = e
    step-Agrees t (logout (some k)) m a some' u h e = elim (Bool-cases (text_beq k token)) [
      | inl same ↦ rw (lookup-erase k token m, same) refl
      | inr other ↦ rw (lookup-erase k token m, other) e
    ]
    step-Agrees t (cleanup now) m a some' u h e = rw (lookup-cleanup_sessions p now token m u) (
        Agrees-later t now a (lookup token m) h e
        ∙ sym (unless_expired-later now now (lookup token m) (omega arith)))

    run-Agrees :
        (t u : ℕ) (es : List Event) (m : Sessions) (a : Ticket)
        → token ≢ []
        → NodupKeys m
        → AreLater t u es
        → Agrees t a (lookup token m)
        → Agrees u (use_all p token es a) (lookup token (run p es m))
    unfolding run
    run-Agrees t u [] m a some' n h e = Agrees-later t u a (lookup token m) h e
    run-Agrees t u (ev ∷ es) m a some' n (h, hs) e =
        run-Agrees (clock t ev) u es (step p ev m) (use_ticket p token ev a) some'
          (step-NodupKeys ev m n) hs (step-Agrees t ev m a some' n h e)

    judge-accepts :
        (now : ℕ) (m : Sessions) (o : Ticket) → (judge p now token m o).0 ≡ accepts p now o
    unfolding judge
    judge-accepts now m none = refl
    judge-accepts now m (some s) = ground arith

valid_session-accepts :
    (p : Policy) (now : ℕ) (token : Text) (m : Sessions)
    → token ≢ []
    → (valid_session p now (some token) m).0 ≡ accepts p now (lookup token m)
unfolding valid_session
valid_session-accepts p now [] m some' = absurd (some' refl)
valid_session-accepts p now (c ∷ k) m some' = judge-accepts p (c ∷ k) now m (lookup (c ∷ k) m)

-- The table of sessions implements one ticket for each token: after any logins, requests, logouts and
-- clean-ups, of this and of other tokens, while the clock does not go back, the token is accepted
-- exactly when its own ticket is, which only its own events change and which no clean-up removes.
-- The token is not empty, and no token stands twice in the table at the start.
pub run-refines :
    (p : Policy) (token : Text) (t now : ℕ) (es : List Event) (m : Sessions)
    → token ≢ []
    → NodupKeys m
    → AreLater t now es
    → (valid_session p now (some token) (run p es m)).0
      ≡ accepts p now (use_all p token es (lookup token m))
run-refines p token t now es m some' unique later =
    valid_session-accepts p now token (run p es m) some'
    ∙ sym (
        accepts-Agrees p now (use_all p token es (lookup token m)) (lookup token (run p es m))
          (run-Agrees p token t now es m (lookup token m) some' unique later refl))
