-- ===== src/Api/Auth/Strangers.antt =====
-- Requests with no session and no known credentials.
use lukscrypt.Prelude.{
  ℕ, Text, text_eq, false, Option, none, some, [], ◌∷◌, ◌≡◌, ◌≢◌, refl, inl, inr, arith, Bool-cases,
  is_empty, is_empty_iff, text_beq_iff, not, ◌||◌, true,
}
use lukscrypt.Prelude.Dict.{lookup}
use lukscrypt.Api.Limiter.{Limiters, auth_allowed}
use lukscrypt.Api.Sessions.{Policy, Sessions, valid_session}
use lukscrypt.Api.Auth.{
  Request, Config, Login, next, AuthState, ip_of, valid_credentials, valid_api_credentials, refuse,
  judge_api, auth, check_login, login,
}
use lukscrypt.Api.Auth.Laws.{IsMaster}

-- The cookie names no session.
abbrev pub IsStrange : Option Text → Sessions → Type 0
IsStrange none m = Unit
IsStrange (some token) m = lookup token m ≡ none

-- The body does not hold the master credentials.
abbrev pub IsWrong : Config → Option Login → Type 0
IsWrong c none = Unit
IsWrong c (some b) = ¬ IsMaster c b

valid_session-strange :
    (p : Policy) (now : ℕ) (cookie : Option Text) (m : Sessions)
    → IsStrange cookie m
    → valid_session p now cookie m ≡ (false, m)
unfolding valid_session
valid_session-strange p now none m h = refl
valid_session-strange p now (some []) m h = refl
valid_session-strange p now (some (c ∷ token)) m h = rw h refl

module _ (l : Limiters) (c : Config) where
  refuse_lem :
      (now : ℕ) (r : Request) (s : AuthState l)
      → ((refuse l c now r s).0 ≢ next) × ((refuse l c now r s).1.sessions ≡ s.sessions)
  unfolding refuse
  refuse_lem now r s = ground arith

  -- They do not pass, and the sessions stay.
  pub auth-strange :
      (hash : Text → Text) (token_by_hash : Text → Option ℕ) (now : ℕ) (r : Request)
      (s : AuthState l)
      → IsStrange r.cookie s.sessions
      → valid_api_credentials hash token_by_hash c r ≡ none
      → let (v, s') = auth l c hash token_by_hash now r s in (v ≢ next) × (s'.sessions ≡ s.sessions)
  unfolding auth judge_api
  auth-strange hash token_by_hash now r s h k =
      rw (valid_session-strange c.policy now r.cookie s.sessions h, k) (refuse_lem now r s)

  not_master :
      (b : Login)
      → ¬ IsMaster c b
      → is_empty b.user || is_empty b.password || not (valid_credentials c b.user b.password) ≡ true
  unfolding valid_credentials
  not_master b h = ground (
    arith,
    is_empty_iff b.user,
    is_empty_iff b.password,
    text_beq_iff b.user c.auth_user,
    text_beq_iff b.password c.auth_pass,
  )

  check_login-strange :
      (now : ℕ) (fresh : Option Text) (r : Request) (body : Option Login) (s : AuthState l)
      → IsWrong c body
      → (check_login l c now fresh r body s).1.sessions ≡ s.sessions
  unfolding check_login
  check_login-strange now fresh r none s h = refl
  check_login-strange now fresh r (some b) s h = ground (arith, not_master b h)

  pub login-strange :
      (now : ℕ) (fresh : Option Text) (r : Request) (body : Option Login) (s : AuthState l)
      → IsWrong c body
      → (login l c now fresh r body s).1.sessions ≡ s.sessions
  unfolding login
  login-strange now fresh r body s h =
      let (allowed, m) = auth_allowed l now (ip_of l c r) s.auth_limiters in
      elim (Bool-cases allowed) [
        | inl e ↦ rw e (check_login-strange now fresh r body (record s { auth_limiters = m }) h)
        | inr e ↦ rw e refl
      ]
