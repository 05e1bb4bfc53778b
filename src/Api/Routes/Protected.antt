-- ===== src/Api/Routes/Protected.antt =====
-- Which requests reach a handler behind the credentials, and which headers a reply has.
use lukscrypt.Prelude.{Bool, ℕ, Text, true, Option, none, some, List, ◌≡◌, ◌↔◌, text_eq, ◌⊎◌, text}
use lukscrypt.Prelude.Dict.{lookup}
use lukscrypt.Api.Limiter.{Limiters}
use lukscrypt.Api.Sessions.{valid_session}
use lukscrypt.Api.Auth.{Request, Config, Login, AuthState}
use lukscrypt.Api.Auth.Laws.{IsKnown}
use lukscrypt.Api.Pipeline.Access.{IsOwn}
use lukscrypt.Api.Routes.{Endpoint, Public, route, routes, Headers, Reached, at_healthz, at}

-- The values of the five headers.
abbrev pub IsHardened : Headers → Type 0
IsHardened h =
    (lookup (text "X-Content-Type-Options") h ≡ some (text "nosniff"))
    × (lookup (text "X-Frame-Options") h ≡ some (text "DENY"))
    × (lookup (text "Referrer-Policy") h ≡ some (text "strict-origin-when-cross-origin"))
    × (lookup (text "Permissions-Policy") h
        ≡ some (text "camera=(), microphone=(), geolocation=()"))
    × (lookup (text "Content-Security-Policy") h
        ≡ some (
            text
              "default-src 'self'; script-src 'self' 'unsafe-inline'; style-src 'self' 'unsafe-inline'; connect-src 'self'; img-src 'self' data:; frame-ancestors 'none'; base-uri 'self'; form-action 'self'"))

module _ (l : Limiters) (c : Config) (origin_host : Text → Option Text) (hash : Text → Text)
    (token_by_hash : Text → Option ℕ) (decode : Text → Bool → Option Login) (now : ℕ)
    (fresh : Option Text) (r : Request) (path : List Text) (body : Text) (s : AuthState l) where
  -- The handler is behind the credentials, the request is not a foreign page's, and it is known.
  abbrev pub IsAdmitted : Option (Public × List Text) → Endpoint → List Text → Type 0
  IsAdmitted top e values =
      (top ≡ none)
      × IsOwn origin_host r
      × (((valid_session c.policy now r.cookie s.sessions).0 ≡ true)
          ⊎ IsKnown hash token_by_hash c r)
      × (route routes r.method path ≡ some (e, values))

  abbrev pub IsGuarded :
      Option (Public × List Text) → Endpoint → List Text → Reached × Headers × AuthState l → Type 0
  IsGuarded top e values (reached, headers, s') =
      ((reached ≡ at e values) ↔ IsAdmitted top e values)
      × (IsHardened headers ⊎ (reached ≡ at_healthz))
