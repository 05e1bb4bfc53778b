-- ===== src/Api/Pipeline.antt =====
-- internal/api/api.go, `NewMux`: the middleware in front of the handlers, in its order, `csrfGuard`,
-- `limitBody` and `auth`. The logger and the header writer around them change no verdict.
pub mod Access
pub mod Strangers
use lukscrypt.Prelude.{ℕ, ◌*◌, ◌^◌, Text, Option, Bool, ltb, take, length}
use lukscrypt.Api.Limiter.{Limiters}
use lukscrypt.Api.Auth.{
  Request, Config, Login, Verdict, next, redirect, refused, AuthState, auth, csrf_guard, login,
}

abbrev pub max_body_bytes : ℕ
max_body_bytes = 8 * 2 ^ 20

-- What a handler can read of a body, and whether reading on fails: a longer one is cut there. The
-- decoder stops after the first JSON value, so a cut body may still decode.
unfoldable pub limit_body : Text → Text × Bool
limit_body body = (take max_body_bytes body, ltb max_body_bytes (length body))

-- A guard's verdict other than `next` is the reply.
guarded : {S R : Type 0} → Verdict → (Verdict → R) → (S → R × S) → S → R × S
guarded next reply inner s = inner s
guarded v reply inner s = (reply v, s)

module _ (l : Limiters) (c : Config) (origin_host : Text → Option Text) where
  unfoldable pub authenticated :
      (hash : Text → Text) (token_by_hash : Text → Option ℕ)
      → ℕ
      → Request
      → AuthState l
      → Verdict × AuthState l
  unfolding guarded auth csrf_guard
  authenticated hash token_by_hash now r s =
      guarded (csrf_guard origin_host r) (λ v. v) (auth l c hash token_by_hash now r) s

  status_of : Verdict → ℕ
  status_of next = 200
  status_of (redirect to) = 303
  status_of (refused status) = status

  -- `/login` is public, behind the same guard; `decode` reads what is left of the body, and
  -- is told whether it was cut.
  unfoldable pub login_public :
      (decode : Text → Bool → Option Login)
      → ℕ
      → (fresh : Option Text) → Request
      → (body : Text) → AuthState l
      → ℕ × AuthState l
  unfolding guarded status_of login csrf_guard limit_body
  login_public decode now fresh r body s =
      let (readable, cut) = limit_body body in
      guarded (csrf_guard origin_host r) status_of (login l c now fresh r (decode readable cut)) s
