-- ===== src/Api/Routes/Tests.antt =====
-- Requests on their way through the routes, at concrete inputs.
use lukscrypt.Prelude.{
  Bool, false, strip_prefix, Text, text, text_beq, text_eq, Option, none, some, List, [], ◌∷◌, ◌≡◌,
  refl, All, inl, inr,
}
use lukscrypt.Api.Limiter.Tests.{buckets}
use lukscrypt.Api.Pipeline.{limit_body}
use lukscrypt.Prelude.Dict.{lookup}
use lukscrypt.Api.Routes.Outsiders.{Visit, IsOutside, IsOutsider, visits, visits-IsOutside}
use lukscrypt.Api.Auth.{valid_credentials, valid_api_credentials, Request, Config, Login, AuthState}
use lukscrypt.Api.Routes.{
  lit, wild, Pattern, vault_details, fits, fits_method, bind_path, route, routes,
}
use lukscrypt.Api.Routes.Unordered.{routes-IsDecisive}

abbrev details : Pattern
details = record {
  method = text "GET";
  segments = lit (text "api") ∷ lit (text "vaults") ∷ lit (text "details") ∷ wild ∷ [];
}

abbrev details_path : List Text
details_path = text "api" ∷ text "vaults" ∷ text "details" ∷ text "7" ∷ []

taken : fits details (text "HEAD") details_path ≡ some (text "7" ∷ [])
unfolding fits fits_method bind_path text text_beq
taken = refl

routes-IsDecisive_example :
    route routes (text "HEAD") details_path ≡ some (vault_details, text "7" ∷ [])
unfolding routes
routes-IsDecisive_example =
    routes-IsDecisive details vault_details (text "HEAD") details_path (text "7" ∷ [])
      (inr (inr (inr (inr (inr (inr (inr (inr (inr (inr (inr (inr (inl refl))))))))))))) taken

abbrev config : Config
config = record {
  auth_user = text "admin";
  auth_pass = text "secret";
  trust_proxy = false;
  policy = record { idle = 30; max_age = 100 };
}

abbrev deletion : Request
deletion = record {
  method = text "DELETE";
  host = text "nas";
  origin = text "https://evil.example";
  accept = text "*/*";
  authorization = text "Basic YWRtaW46c2VjcmV0";
  basic = some (text "admin", text "secret");
  cookie = none;
  xff = [];
  remote_addr = text "10.0.0.1:80";
}

abbrev nobody : AuthState buckets
nobody = record { sessions = []; auth_limiters = []; touched = [] }

abbrev after_scheme : Text → Option Text
after_scheme origin = strip_prefix (text "https://") origin

abbrev probe : (path : List Text) → Visit
probe path = record {
  now = 5;
  fresh = some (text "f00d");
  request = record deletion { authorization = []; basic = none; cookie = some (text "guess") };
  path = path;
  body = text "{}";
}

-- The body that is decoded holds a wrong password.
abbrev guessing : Text → Bool → Option Login
guessing body cut = some (record { user = text "admin"; password = text "12345678" })

probe-IsOutsider :
    (path : List Text)
    → IsOutsider buckets config after_scheme (λ t. t) (λ t. none) guessing [] (probe path)
unfolding lookup valid_api_credentials limit_body valid_credentials text text_beq strip_prefix
probe-IsOutsider path = record { strange = refl; unknown = λ k. k; wrong = λ (_, _, _, k). cc }

visits-IsOutside_example :
    let (reached, s') =
      visits buckets config after_scheme
        (λ t. t)
        (λ t. none)
        guessing
        (probe (text "api" ∷ text "vaults" ∷ []) ∷ probe (text "login" ∷ []) ∷ [])
        nobody in
    All IsOutside reached × (s'.sessions ≡ [])
visits-IsOutside_example =
    visits-IsOutside buckets config after_scheme (λ t. t) (λ t. none) guessing
      (probe (text "api" ∷ text "vaults" ∷ []) ∷ probe (text "login" ∷ []) ∷ []) nobody
      (probe-IsOutsider _, (probe-IsOutsider _, tt))
