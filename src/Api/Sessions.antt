-- ===== src/Api/Sessions.antt =====
-- internal/api/api.go: the UI login sessions, `validSession`, `logout` and `cleanupSessions`, and
-- the session that `login` stores. Times and durations are in nanoseconds, the clock's reading is
-- an argument; durations are not negative.
pub mod Laws
pub mod Cleanup
pub mod Ticket
pub mod Refine
use lukscrypt.Prelude.{
  ℕ, ◌-◌, Bool, true, false, ◌||◌, Option, none, some, List, [], ◌∷◌, arith, ltb, if◌then◌else◌, Eq,
  nat_eq, Text, text_eq,
}
use lukscrypt.Prelude.Dict.{Dict, lookup, insert, erase}

pub record Session : Type 0 where
  pub created_at : ℕ
  pub last_seen : ℕ

-- `h.sessionIdle` and `h.sessionMaxAge`.
pub record Policy : Type 0 where
  pub idle : ℕ
  pub max_age : ℕ

abbrev pub Sessions : Type 0
Sessions = Dict Text Session

abbrev pub is_expired : Policy → ℕ → Session → Bool
is_expired p now s = ltb p.idle (now - s.last_seen) || ltb p.max_age (now - s.created_at)

judge : Policy → ℕ → Text → Sessions → Option Session → Bool × Sessions
judge p now token m none = (false, m)
judge p now token m (some s) =
    if is_expired p now s
    then (false, erase token m)
    else (true, insert token (record s { last_seen = now }) m)

-- The verdict on a request's cookie, and the sessions after it.
unfoldable pub valid_session : Policy → ℕ → Option Text → Sessions → Bool × Sessions
unfolding judge
valid_session p now none m = (false, m)
valid_session p now (some []) m = (false, m)
valid_session p now (some (c ∷ token)) m = judge p now (c ∷ token) m (lookup (c ∷ token) m)

-- What `login` stores under a fresh token.
unfoldable pub issue : ℕ → Text → Sessions → Sessions
issue now token m = insert token (record { created_at = now; last_seen = now }) m

unfoldable pub logout_session : Option Text → Sessions → Sessions
logout_session none m = m
logout_session (some token) m = erase token m

unfoldable pub cleanup_sessions : Policy → ℕ → Sessions → Sessions
cleanup_sessions p now [] = []
cleanup_sessions p now ((token, s) ∷ m) =
    let rest = cleanup_sessions p now m in if is_expired p now s then rest else (token, s) ∷ rest

-- What happens to the sessions, with the time of each event.
pub data Event : Type 0 where
  request : ℕ → Option Text → Event
  login : ℕ → Text → Event
  logout : Option Text → Event
  cleanup : ℕ → Event

unfoldable pub step : Policy → Event → Sessions → Sessions
unfolding valid_session issue logout_session cleanup_sessions
step p (request now cookie) m = (valid_session p now cookie m).1
step p (login now token) m = issue now token m
step p (logout cookie) m = logout_session cookie m
step p (cleanup now) m = cleanup_sessions p now m

unfoldable pub run : Policy → List Event → Sessions → Sessions
unfolding step
run p [] m = m
run p (e ∷ es) m = run p es (step p e m)
