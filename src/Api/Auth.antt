-- ===== src/Api/Auth.antt =====
-- internal/api/api.go: who may pass. `validCredentials`, `validAPICredentials`, the `auth`
-- middleware, `csrfGuard` and `login`. SHA-256 and the URL parser are parameters; so are the token
-- bucket and the lookup of a token's hash in the database, which gives `none` also on an error. A
-- request comes with what net/http reads out of its headers.
pub mod Laws
pub mod Strangers
use lukscrypt.Prelude.{
  ℕ, ◌/◌, ap, Bool, true, not, ◌&&◌, ◌||◌, Option, none, some, List, ◌∷◌, arith, if◌then◌else◌, Eq,
  nat_eq, is_empty, all, Text, text, text_beq, text_eq, contains, trim_space, strip_prefix,
}
use lukscrypt.Api.Sessions.{Policy, Sessions, valid_session, issue}
use lukscrypt.Api.Limiter.{Limiters, Entries, auth_allowed, clear_auth_failures}
use lukscrypt.Api.ClientIp.{client_ip}

pub record Request : Type 0 where
  pub method : Text
  pub host : Text
  pub origin : Text
  pub accept : Text
  pub authorization : Text
  -- `r.BasicAuth()`
  pub basic : Option (Text × Text)
  pub cookie : Option Text
  pub xff : Text
  pub remote_addr : Text

pub record Config : Type 0 where
  pub auth_user : Text
  pub auth_pass : Text
  pub trust_proxy : Bool
  pub policy : Policy

unfoldable pub valid_credentials : Config → Text → Text → Bool
valid_credentials c user pass = text_beq user c.auth_user && text_beq pass c.auth_pass

-- The JSON body that `login` decodes.
pub record Login : Type 0 where
  pub user : Text
  pub password : Text

-- What a middleware does with a request: it hands it on, or replies.
pub data Verdict : Type 0 where
  next : Verdict
  redirect : Text → Verdict
  refused : (status : ℕ) → Verdict

abbrev pub strip_bearer : Text → Option Text
strip_bearer s = strip_prefix (text "Bearer ") s

module _ (hash : Text → Text) (token_by_hash : Text → Option ℕ) (c : Config) where
  -- `(tokenID, isToken, ok)`: a token's id, or `none` for the master credentials.
  by_token : Text → Option (Option ℕ)
  by_token token = elim (token_by_hash (hash token)) [ none ↦ none | some id ↦ some (some id) ]

  by_basic : Option (Text × Text) → Option (Option ℕ)
  unfolding by_token valid_credentials
  by_basic none = none
  by_basic (some (user, pass)) =
      if valid_credentials c user pass
      then some none
      else if text_beq user c.auth_user
      then by_token pass
      else none

  unfoldable pub valid_api_credentials : Request → Option (Option ℕ)
  unfolding by_basic by_token strip_prefix trim_space
  valid_api_credentials r = elim (strip_bearer r.authorization) [
    | some token ↦ by_token (trim_space token)
    | none ↦ by_basic r.basic
  ]

-- What the middleware changes; `touched` lists the tokens whose use is recorded.
pub record AuthState (l : Limiters) : Type 0 where
  pub sessions : Sessions
  pub auth_limiters : Entries l
  pub touched : List ℕ

abbrev touch : Option ℕ → List ℕ → List ℕ
touch none ids = ids
touch (some id) ids = id ∷ ids

is_get : Text → Bool
is_get method = text_beq method (text "GET")

module _ (l : Limiters) (c : Config) where
  abbrev pub ip_of : Request → Text
  ip_of r = client_ip c.trust_proxy r.xff r.remote_addr

  refuse : ℕ → Request → AuthState l → Verdict × AuthState l
  unfolding is_get
  refuse now r s =
      let (allowed, m) = auth_allowed l now (ip_of r) s.auth_limiters in
      (
        if not allowed
            then refused 429
            else if is_get r.method
                && is_empty r.authorization
                && contains r.accept (text "text/html")
            then redirect (text "/login")
            else refused 401,
        record s { auth_limiters = m },
      )

  accept : Option ℕ → Request → AuthState l → Verdict × AuthState l
  accept id r s = (
    next,
    record s {
      auth_limiters = clear_auth_failures l (ip_of r) s.auth_limiters;
      touched = touch id s.touched;
    },
  )

  judge_api : ℕ → Request → Option (Option ℕ) → AuthState l → Verdict × AuthState l
  unfolding accept refuse
  judge_api now r (some id) s = accept id r s
  judge_api now r none s = refuse now r s

  unfoldable pub auth :
      (hash : Text → Text) (token_by_hash : Text → Option ℕ)
      → ℕ
      → Request
      → AuthState l
      → Verdict × AuthState l
  unfolding judge_api accept
  auth hash token_by_hash now r s =
      let (live, m) = valid_session c.policy now r.cookie s.sessions in
      let s' = record s { sessions = m } in
      if live
      then accept none r s'
      else judge_api now r (valid_api_credentials hash token_by_hash c r) s'

  -- The body is `none` if it cannot be decoded, the fresh token if there is no randomness.
  issue_session : ℕ → Option Text → Request → AuthState l → ℕ × AuthState l
  issue_session now none r s =
      (500, record s { auth_limiters = clear_auth_failures l (ip_of r) s.auth_limiters })
  issue_session now (some token) r s = (
    200,
    record s {
      auth_limiters = clear_auth_failures l (ip_of r) s.auth_limiters;
      sessions = issue now token s.sessions;
    },
  )

  check_login : ℕ → Option Text → Request → Option Login → AuthState l → ℕ × AuthState l
  unfolding issue_session valid_credentials
  check_login now fresh r none s = (400, s)
  check_login now fresh r (some b) s =
      if is_empty b.user || is_empty b.password
      then (400, s)
      else if not (valid_credentials c b.user b.password)
      then (401, s)
      else issue_session now fresh r s

  -- The status of the reply, and the state after it.
  unfoldable pub login : ℕ → Option Text → Request → Option Login → AuthState l → ℕ × AuthState l
  unfolding check_login
  login now fresh r body s =
      let (allowed, m) = auth_allowed l now (ip_of r) s.auth_limiters in
      let s' = record s { auth_limiters = m } in
      if allowed then check_login now fresh r body s' else (429, s')

-- `origin_host` is the host of a URL, `none` if it cannot be parsed.
unfoldable pub csrf_guard : (origin_host : Text → Option Text) → Request → Verdict
csrf_guard origin_host r =
    let foreign : Bool = elim (origin_host r.origin) [
      | none ↦ true
      | some host ↦ not (text_beq host r.host)
    ] in
    if not (text_beq r.method (text "GET"))
      && not (text_beq r.method (text "HEAD"))
      && not (is_empty r.origin)
      && foreign
    then refused 403
    else next
