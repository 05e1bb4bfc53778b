-- ===== src/Api/Routes.antt =====
-- internal/api/api.go, `NewMux`: the routes, `securityHeaders`, and which requests go through which
-- middleware. The matching is that of `http.ServeMux`: a pattern for GET takes HEAD as well, and a
-- wildcard takes one segment. A path comes as the list of its segments, already clean (the mux
-- redirects one that is not).
pub mod Unordered
pub mod Protected
pub mod Outsiders
mod Tests
use lukscrypt.Prelude.{
  Bool, ℕ, Text, text, text_eq, text_beq, Bool, ◌&&◌, ◌||◌, Option, none, some, List, [], ◌∷◌,
  if◌then◌else◌,
}
use lukscrypt.Prelude.Dict.{Dict, insert}
use lukscrypt.Api.Limiter.{Limiters}
use lukscrypt.Api.Auth.{Request, Config, Login, Verdict, next, AuthState, csrf_guard}
use lukscrypt.Api.Pipeline.{authenticated, login_public}

pub data Segment : Type 0 where
  lit : Text → Segment
  wild : Segment

pub record Pattern : Type 0 where
  pub method : Text
  pub segments : List Segment

unfoldable pub fits_method : (pattern method : Text) → Bool
fits_method p m = text_beq p m || (text_beq p (text "GET") && text_beq m (text "HEAD"))

abbrev pub with_value : Text → Option (List Text) → Option (List Text)
with_value t none = none
with_value t (some ts) = some (t ∷ ts)

-- The values of the wildcards.
unfoldable pub bind_path : List Segment → List Text → Option (List Text)
bind_path [] [] = some []
bind_path [] (t ∷ ts) = none
bind_path (p ∷ ps) [] = none
bind_path (lit s ∷ ps) (t ∷ ts) = let rest = bind_path ps ts in if text_beq s t then rest else none
bind_path (wild ∷ ps) (t ∷ ts) = with_value t (bind_path ps ts)

unfoldable pub fits : Pattern → (method : Text) → (path : List Text) → Option (List Text)
unfolding fits_method bind_path
fits p method path = if fits_method p.method method then bind_path p.segments path else none

abbrev or_else :
    {A : Type 0} → A → Option (List Text) → Option (A × List Text) → Option (A × List Text)
or_else a none rest = rest
or_else a (some vs) rest = some (a, vs)

-- The first pattern that fits; `Unordered` shows that it is the only one.
unfoldable pub route :
    {A : Type 0}
    → List (Pattern × A)
    → (method : Text) → (path : List Text) → Option (A × List Text)
unfolding fits
route [] method path = none
route ((p, a) ∷ ps) method path = or_else a (fits p method path) (route ps method path)

pub data Endpoint : Type 0 where
  index get_config list_vaults create_vault import_vault delete_vault : Endpoint
  unlock_vault lock_vault mount_vault grow_vault keyslot_add keyslot_remove : Endpoint
  vault_details vault_events logout list_tokens create_token delete_token : Endpoint

abbrev on : Text → List Segment → Pattern
on method segments = record { method = method; segments = segments }

abbrev get : List Segment → Pattern
get segments = on (text "GET") segments

abbrev post : List Segment → Pattern
post segments = on (text "POST") segments

abbrev delete : List Segment → Pattern
delete segments = on (text "DELETE") segments

abbrev vaults : List Segment → List Segment
vaults rest = lit (text "api") ∷ lit (text "vaults") ∷ rest

abbrev tokens : List Segment → List Segment
tokens rest = lit (text "api") ∷ lit (text "tokens") ∷ rest

abbrev of_vault : List Segment → List Segment
of_vault rest = vaults (wild ∷ rest)

-- `mux`, behind the credentials.
unfoldable pub routes : List (Pattern × Endpoint)
routes =
    (get [], index)
    ∷ (get (lit (text "api") ∷ lit (text "config") ∷ []), get_config)
    ∷ (get (vaults []), list_vaults)
    ∷ (post (vaults []), create_vault)
    ∷ (post (vaults (lit (text "import") ∷ [])), import_vault)
    ∷ (delete (of_vault []), delete_vault)
    ∷ (post (of_vault (lit (text "unlock") ∷ [])), unlock_vault)
    ∷ (post (of_vault (lit (text "lock") ∷ [])), lock_vault)
    ∷ (post (of_vault (lit (text "mount") ∷ [])), mount_vault)
    ∷ (post (of_vault (lit (text "grow") ∷ [])), grow_vault)
    ∷ (post (of_vault (lit (text "keyslot") ∷ lit (text "add") ∷ [])), keyslot_add)
    ∷ (post (of_vault (lit (text "keyslot") ∷ lit (text "remove") ∷ [])), keyslot_remove)
    ∷ (get (vaults (lit (text "details") ∷ wild ∷ [])), vault_details)
    ∷ (get (vaults (lit (text "events") ∷ wild ∷ [])), vault_events)
    ∷ (post (lit (text "logout") ∷ []), logout)
    ∷ (get (tokens []), list_tokens)
    ∷ (post (tokens []), create_token)
    ∷ (delete (tokens (wild ∷ [])), delete_token)
    ∷ []

pub data Public : Type 0 where
  healthz login_page login : Public

-- `top`, whose last pattern `/` takes every request that these do not take.
unfoldable pub top_routes : List (Pattern × Public)
top_routes =
    (get (lit (text "healthz") ∷ []), healthz)
    ∷ (get (lit (text "login") ∷ []), login_page)
    ∷ (post (lit (text "login") ∷ []), login)
    ∷ []

abbrev pub Headers : Type 0
Headers = Dict Text Text

-- Set before the handler runs, and before any other guard.
unfoldable pub security_headers : Headers → Headers
unfolding insert
security_headers h =
    insert (text "Content-Security-Policy")
      (text
        "default-src 'self'; script-src 'self' 'unsafe-inline'; style-src 'self' 'unsafe-inline'; connect-src 'self'; img-src 'self' data:; frame-ancestors 'none'; base-uri 'self'; form-action 'self'")
      (insert (text "Permissions-Policy") (text "camera=(), microphone=(), geolocation=()") (
        insert (text "Referrer-Policy") (text "strict-origin-when-cross-origin") (
          insert (text "X-Frame-Options") (text "DENY")
            (insert (text "X-Content-Type-Options") (text "nosniff") h))))

-- How far a request gets: a public handler, the login's status, a handler behind the credentials
-- with the path's values, a guard's reply, or the mux's own, 404 or 405.
pub data Reached : Type 0 where
  at_healthz at_login_page no_route : Reached
  at_login : (status : ℕ) → Reached
  at : Endpoint → List Text → Reached
  stopped : Verdict → Reached

routed : Option (Endpoint × List Text) → Reached
routed none = no_route
routed (some (e, values)) = at e values

page : Verdict → Reached
page next = at_login_page
page v = stopped v

behind : Verdict → Option (Endpoint × List Text) → Reached
unfolding routed
behind next found = routed found
behind v found = stopped v

module _ (l : Limiters) (c : Config) (origin_host : Text → Option Text) (hash : Text → Text)
    (token_by_hash : Text → Option ℕ) (decode : Text → Bool → Option Login) where
  dispatch_top :
      Option (Public × List Text)
      → (now : ℕ) → (fresh : Option Text) → Request
      → (path : List Text) → (body : Text) → AuthState l
      → Reached × Headers × AuthState l
  unfolding page behind route routes security_headers csrf_guard authenticated login_public
  dispatch_top (some (healthz, _)) now fresh r path body s = (at_healthz, [], s)
  dispatch_top (some (login_page, _)) now fresh r path body s =
      (page (csrf_guard origin_host r), security_headers [], s)
  dispatch_top (some (login, _)) now fresh r path body s =
      let (status, s') = login_public l c origin_host decode now fresh r body s in
      (at_login status, security_headers [], s')
  dispatch_top none now fresh r path body s =
      let (v, s') = authenticated l c origin_host hash token_by_hash now r s in
      (behind v (route routes r.method path), security_headers [], s')

  -- How far a request gets, the headers that are set by then, and the state after the middleware.
  unfoldable pub dispatch :
      (now : ℕ)
      → (fresh : Option Text) → Request
      → (path : List Text) → (body : Text) → AuthState l
      → Reached × Headers × AuthState l
  unfolding dispatch_top route top_routes
  dispatch now fresh r path body s =
      dispatch_top (route top_routes r.method path) now fresh r path body s
