-- ===== src/Api/Auth/Laws.antt =====
-- Who passes the `auth` middleware, and who can log in.
use lukscrypt.Prelude.{
  strip_prefix, is_empty_iff, ℕ, ◌≡◌, refl, ◌≢◌, ◌↔◌, ◌⊎◌, inl, inr, true, false, Option, none,
  some, [], arith, Bool-cases, Option-cases, nat_eq, Text, text, text_beq_iff, text_eq, trim_space,
}
use lukscrypt.Api.Sessions.{valid_session}
use lukscrypt.Api.Limiter.{Limiters, auth_allowed}
use lukscrypt.Api.Auth.{
  Request, Config, Login, next, refused, strip_bearer, valid_credentials, by_token, by_basic,
  valid_api_credentials, AuthState, ip_of, refuse, accept, judge_api, auth, issue_session,
  check_login, login,
}

module _ (hash : Text → Text) (token_by_hash : Text → Option ℕ) (c : Config) where
  -- The request shows an API token, or the master credentials.
  abbrev IsKnownBasic : Option (Text × Text) → Type 0
  IsKnownBasic none = ⊥
  IsKnownBasic (some (user, pass)) =
      (user ≡ c.auth_user) × ((pass ≡ c.auth_pass) ⊎ (token_by_hash (hash pass) ≢ none))

  abbrev IsKnownBy : Option Text → Option (Text × Text) → Type 0
  IsKnownBy (some token) basic = token_by_hash (hash (trim_space token)) ≢ none
  IsKnownBy none basic = IsKnownBasic basic

  abbrev pub IsKnown : Request → Type 0
  IsKnown r = IsKnownBy (strip_prefix (text "Bearer ") r.authorization) r.basic

  by_token_iff :
      (token : Text)
      → (by_token hash token_by_hash c token ≢ none) ↔ (token_by_hash (hash token) ≢ none)
  unfolding by_token
  by_token_iff token = ground arith

  by_basic_iff :
      (basic : Option (Text × Text))
      → (by_basic hash token_by_hash c basic ≢ none) ↔ IsKnownBasic basic
  unfolding by_basic valid_credentials
  by_basic_iff none = ground arith
  by_basic_iff (some (user, pass)) =
      ground
        (arith, text_beq_iff user c.auth_user, text_beq_iff pass c.auth_pass, by_token_iff pass)

  known_iff :
      (bearer : Option Text) (r : Request)
      → strip_bearer r.authorization ≡ bearer
      → (valid_api_credentials hash token_by_hash c r ≢ none) ↔ IsKnownBy bearer r.basic
  unfolding valid_api_credentials text
  known_iff none r e = rw e (by_basic_iff r.basic)
  known_iff (some token) r e = rw e (by_token_iff (trim_space token))

  module _ (l : Limiters) where
    judge_api_iff :
        (now : ℕ) (r : Request) (o : Option (Option ℕ)) (s : AuthState l)
        → ((judge_api l c now r o s).0 ≡ next) ↔ (o ≢ none)
    unfolding judge_api refuse accept
    judge_api_iff now r none s = ground arith
    judge_api_iff now r (some id) s = ground arith

    auth_cases :
        (now : ℕ) (r : Request) (s : AuthState l)
        → ((auth l c hash token_by_hash now r s).0 ≡ next) ↔ (
            ((valid_session c.policy now r.cookie s.sessions).0 ≡ true)
            ⊎ (valid_api_credentials hash token_by_hash c r ≢ none))
    unfolding auth
    auth_cases now r s = elim (Bool-cases (valid_session c.policy now r.cookie s.sessions).0) [
      | inl live ↦ rw live (λ _. inl refl, λ _. refl)
      | inr dead ↦
          let (to, from) =
            judge_api_iff now r (valid_api_credentials hash token_by_hash c r)
              (record s { sessions = (valid_session c.policy now r.cookie s.sessions).1 }) in
          rw dead (λ e. inr (to e), elim [ inl t ↦ absurd (cc) | inr k ↦ from k ])
    ]

-- A request is handed on exactly when its cookie is a live session's, or its Authorization header
-- shows a stored API token (as Bearer, or as the password of the configured user) or the master
-- credentials.
pub auth_iff :
    (l : Limiters) (hash : Text → Text) (token_by_hash : Text → Option ℕ) (c : Config) (now : ℕ)
    (r : Request) (s : AuthState l)
    → ((auth l c hash token_by_hash now r s).0 ≡ next) ↔ (
        ((valid_session c.policy now r.cookie s.sessions).0 ≡ true)
        ⊎ IsKnown hash token_by_hash c r)
auth_iff l hash token_by_hash c now r s =
    let (to, from) = auth_cases hash token_by_hash c l now r s in
    let (known, back) = known_iff hash token_by_hash c (strip_bearer r.authorization) r refl in
    (
      λ e. elim (to e) [ inl live ↦ inl live | inr k ↦ inr (known k) ],
      elim [ inl live ↦ from (inl live) | inr k ↦ from (inr (back k)) ],
    )

judge_api_refused :
    (l : Limiters) (c : Config) (now : ℕ) (r : Request) (o : Option (Option ℕ)) (s : AuthState l)
    → (judge_api l c now r o s).0 ≢ next
    → ((judge_api l c now r o s).1.auth_limiters
        ≡ (auth_allowed l now (ip_of l c r) s.auth_limiters).1)
      × (((judge_api l c now r o s).0 ≡ refused 429)
          ↔ ((auth_allowed l now (ip_of l c r) s.auth_limiters).0 ≡ false))
unfolding judge_api refuse accept
judge_api_refused l c now r (some id) s h = absurd (h refl)
judge_api_refused l c now r none s h = ground arith

-- A request that is not handed on is charged to its address's limiter, and answered 429 exactly
-- when the limiter refuses it.
pub auth-refused :
    (l : Limiters) (hash : Text → Text) (token_by_hash : Text → Option ℕ) (c : Config) (now : ℕ)
    (r : Request) (s : AuthState l)
    → (auth l c hash token_by_hash now r s).0 ≢ next
    → let (allowed, m) = auth_allowed l now (ip_of l c r) s.auth_limiters in
      ((auth l c hash token_by_hash now r s).1.auth_limiters ≡ m)
      × (((auth l c hash token_by_hash now r s).0 ≡ refused 429) ↔ (allowed ≡ false))
unfolding auth
auth-refused l hash token_by_hash c now r s h =
    elim (Bool-cases (valid_session c.policy now r.cookie s.sessions).0) [
      | inl live ↦ absurd (h (rw live refl))
      | inr dead ↦
          let m = (valid_session c.policy now r.cookie s.sessions).1 in
          let o = valid_api_credentials hash token_by_hash c r in
          rw dead (judge_api_refused l c now r o (record s { sessions = m }) (rw dead at h))
    ]

-- Credentials that are not known are none.
pub unknown_lem :
    (hash : Text → Text) (token_by_hash : Text → Option ℕ) (c : Config) (r : Request)
    → ¬ IsKnown hash token_by_hash c r
    → valid_api_credentials hash token_by_hash c r ≡ none
unknown_lem hash token_by_hash c r h =
    elim (Option-cases (valid_api_credentials hash token_by_hash c r)) [
      | inl e ↦ e
      | inr (id, e) ↦
          absurd
            (h ((known_iff hash token_by_hash c (strip_bearer r.authorization) r refl).0 λ n. cc))
    ]

abbrev pub IsMaster : Config → Login → Type 0
IsMaster c b =
    (b.user ≢ []) × (b.password ≢ []) × (b.user ≡ c.auth_user) × (b.password ≡ c.auth_pass)

check_login_iff :
    (l : Limiters) (c : Config) (now : ℕ) (fresh : Option Text) (r : Request) (b : Login)
    (s : AuthState l)
    → ((check_login l c now fresh r (some b) s).0 ≡ 200) ↔ ((fresh ≢ none) × IsMaster c b)
unfolding check_login valid_credentials issue_session
check_login_iff l c now none r b s = ground arith
check_login_iff l c now (some token) r b s = ground (
  arith,
  is_empty_iff b.user,
  is_empty_iff b.password,
  text_beq_iff b.user c.auth_user,
  text_beq_iff b.password c.auth_pass,
)

login_body_iff :
    (l : Limiters) (c : Config) (now : ℕ) (fresh : Option Text) (r : Request) (body : Option Login)
    (s : AuthState l)
    → ((check_login l c now fresh r body s).0 ≡ 200)
      ↔ ((fresh ≢ none) × ((b : Login) × (body ≡ some b) × IsMaster c b))
unfolding check_login
login_body_iff l c now fresh r none s = (λ e. absurd (omega arith), λ t. absurd (cc (t.1.1)))
login_body_iff l c now fresh r (some b) s =
    let (to, from) = check_login_iff l c now fresh r b s in
    (
      λ e. ((to e).0, (b, refl, (to e).1)),
      λ t. from (t.0, let same : t.1.0 ≡ b = cc (t.1.1) in rw (← same) t.1.2),
    )

-- The status of a login is 200 exactly when the limiter allows the attempt, the body has the master
-- credentials, neither of them empty, and a fresh token could be made.
pub login_iff :
    (l : Limiters) (c : Config) (now : ℕ) (fresh : Option Text) (r : Request) (body : Option Login)
    (s : AuthState l)
    → ((login l c now fresh r body s).0 ≡ 200) ↔ (
        ((auth_allowed l now (ip_of l c r) s.auth_limiters).0 ≡ true)
        × (fresh ≢ none)
        × ((b : Login) × (body ≡ some b) × IsMaster c b))
unfolding login
login_iff l c now fresh r body s =
    let (allowed, m) = auth_allowed l now (ip_of l c r) s.auth_limiters in
    let (to, from) = login_body_iff l c now fresh r body (record s { auth_limiters = m }) in
    elim (Bool-cases (auth_allowed l now (ip_of l c r) s.auth_limiters).0) [
      | inl yes' ↦ rw yes' (λ e. (refl, (to e).0, (to e).1), λ t. from (t.1, t.2))
      | inr no' ↦ rw no' (λ e. absurd (omega arith), λ t. absurd (cc (t.0)))
    ]
