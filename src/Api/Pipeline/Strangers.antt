-- ===== src/Api/Pipeline/Strangers.antt =====
-- What the chains of middleware do with a request that has no session and no known credentials.
use lukscrypt.Prelude.{Bool, ℕ, Text, Option, none, ◌≡◌, ◌≢◌, refl}
use lukscrypt.Api.Limiter.{Limiters}
use lukscrypt.Api.Auth.{
  Request, Config, Login, Verdict, next, redirect, refused, AuthState, valid_api_credentials, auth,
  csrf_guard, login,
}
use lukscrypt.Api.Auth.Strangers.{IsStrange, IsWrong, auth-strange, login-strange}
use lukscrypt.Api.Pipeline.{limit_body, guarded, status_of, authenticated, login_public}

-- What the handler of `/login` decodes.
abbrev pub read_login : (decode : Text → Bool → Option Login) → Text → Option Login
read_login decode body = let (readable, cut) = limit_body body in decode readable cut

module _ (l : Limiters) (c : Config) (origin_host : Text → Option Text) where
  abbrev Stays : AuthState l → Verdict × AuthState l → Type 0
  Stays s (v, s') = (v ≢ next) × (s'.sessions ≡ s.sessions)

  guarded-Stays :
      (v : Verdict) (inner : AuthState l → Verdict × AuthState l) (s : AuthState l)
      → Stays s (inner s)
      → Stays s (guarded v (λ w. w) inner s)
  unfolding guarded
  guarded-Stays next inner s h = h
  guarded-Stays (redirect to) inner s h = (λ e. cc, refl)
  guarded-Stays (refused status) inner s h = (λ e. cc, refl)

  pub authenticated-strange :
      (hash : Text → Text) (token_by_hash : Text → Option ℕ) (now : ℕ) (r : Request)
      (s : AuthState l)
      → IsStrange r.cookie s.sessions
      → valid_api_credentials hash token_by_hash c r ≡ none
      → Stays s (authenticated l c origin_host hash token_by_hash now r s)
  unfolding authenticated
  authenticated-strange hash token_by_hash now r s h k =
      guarded-Stays (csrf_guard origin_host r) (auth l c hash token_by_hash now r) s
        (auth-strange l c hash token_by_hash now r s h k)

  guarded-sessions :
      (v : Verdict) (inner : AuthState l → ℕ × AuthState l) (s : AuthState l)
      → (inner s).1.sessions ≡ s.sessions
      → (guarded v (status_of l c origin_host) inner s).1.sessions ≡ s.sessions
  unfolding guarded
  guarded-sessions next inner s h = h
  guarded-sessions (redirect to) inner s h = refl
  guarded-sessions (refused status) inner s h = refl

  pub login_public-strange :
      (decode : Text → Bool → Option Login) (now : ℕ) (fresh : Option Text) (r : Request)
      (body : Text) (s : AuthState l)
      → IsWrong c (read_login decode body)
      → (login_public l c origin_host decode now fresh r body s).1.sessions ≡ s.sessions
  unfolding login_public
  login_public-strange decode now fresh r body s h =
      guarded-sessions (csrf_guard origin_host r) (login l c now fresh r (read_login decode body)) s
        (login-strange l c now fresh r (read_login decode body) s h)
