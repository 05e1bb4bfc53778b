-- ===== src/Api/Routes/Outsiders.antt =====
-- Any number of requests without a session and without credentials, in any order.
use lukscrypt.Prelude.{
  Bool, ℕ, Text, text_eq, Option, none, some, List, [], ◌∷◌, ◌≡◌, ◌≢◌, refl, ◌∙◌, sym, subst, All,
}
use lukscrypt.Api.Limiter.{Limiters}
use lukscrypt.Api.Sessions.{Sessions}
use lukscrypt.Api.Auth.{
  Request, Config, Login, Verdict, next, redirect, refused, AuthState, csrf_guard,
}
use lukscrypt.Api.Auth.Laws.{IsKnown, unknown_lem}
use lukscrypt.Api.Auth.Strangers.{IsStrange, IsWrong}
use lukscrypt.Api.Pipeline.Strangers.{read_login, authenticated-strange, login_public-strange}
use lukscrypt.Api.Routes.{
  Endpoint, Public, healthz, login_page, login, route, routes, top_routes, Reached, at, page,
  behind, dispatch_top, dispatch,
}

pub record Visit : Type 0 where
  pub now : ℕ
  pub fresh : Option Text
  pub request : Request
  pub path : List Text
  pub body : Text

-- Not a handler behind the credentials.
abbrev pub IsOutside : Reached → Type 0
IsOutside (at e values) = ⊥
IsOutside _ = Unit

behind-IsOutside :
    (v : Verdict) (found : Option (Endpoint × List Text)) → v ≢ next → IsOutside (behind v found)
unfolding behind
behind-IsOutside next found h = absurd (h refl)
behind-IsOutside (redirect to) found h = tt
behind-IsOutside (refused status) found h = tt

page-IsOutside : (v : Verdict) → IsOutside (page v)
unfolding page
page-IsOutside next = tt
page-IsOutside (redirect to) = tt
page-IsOutside (refused status) = tt

module _ (l : Limiters) (c : Config) (origin_host : Text → Option Text) (hash : Text → Text)
    (token_by_hash : Text → Option ℕ) (decode : Text → Bool → Option Login) where
  -- A live session is not named, the headers show no stored token and no master credentials,
  -- and what the login decodes is not the master credentials.
  pub record IsOutsider (m : Sessions) (v : Visit) : Type 0 where
    pub strange : IsStrange v.request.cookie m
    pub unknown : ¬ IsKnown hash token_by_hash c v.request
    pub wrong : IsWrong c (read_login decode v.body)

  -- How far each request gets.
  unfoldable pub visits : List Visit → AuthState l → List Reached × AuthState l
  unfolding dispatch
  visits [] s = ([], s)
  visits (v ∷ vs) s =
      let (reached, _, s') =
        dispatch l c origin_host hash token_by_hash decode v.now v.fresh v.request v.path v.body
          s in
      let (rest, s'') = visits vs s' in (reached ∷ rest, s'')

  dispatch-outsider :
      (v : Visit) (s : AuthState l)
      → IsOutsider s.sessions v
      → (top : Option (Public × List Text))
      → let (reached, _, s') =
          dispatch_top l c origin_host hash token_by_hash decode top v.now v.fresh v.request v.path
            v.body s in
        IsOutside reached × (s'.sessions ≡ s.sessions)
  unfolding dispatch_top
  dispatch-outsider v s h (some (healthz, ws)) = (tt, refl)
  dispatch-outsider v s h (some (login_page, ws)) =
      (page-IsOutside (csrf_guard origin_host v.request), refl)
  dispatch-outsider v s h (some (login, ws)) =
      (tt, login_public-strange l c origin_host decode v.now v.fresh v.request v.body s h.wrong)
  dispatch-outsider v s h none =
      let (stops, same) =
        authenticated-strange l c origin_host hash token_by_hash v.now v.request s h.strange
          (unknown_lem hash token_by_hash c v.request h.unknown) in
      (behind-IsOutside _ (route routes v.request.method v.path) stops, same)

  -- Whatever number of requests, in whatever order and for whatever paths, that name no session, show
  -- neither a stored token nor the master credentials in their headers, and do not send the master
  -- credentials to the login, while the tokens in the database stay as they are: none of them reaches
  -- a handler behind the credentials, and the sessions stay as they are.
  pub visits-IsOutside :
      (vs : List Visit) (s : AuthState l)
      → All (IsOutsider s.sessions) vs
      → let (reached, s') = visits vs s in All IsOutside reached × (s'.sessions ≡ s.sessions)
  unfolding visits dispatch
  visits-IsOutside [] s h = (tt, refl)
  visits-IsOutside (v ∷ vs) s (h, hs) =
      let (out, same) = dispatch-outsider v s h (route top_routes v.request.method v.path) in
      let after =
        (dispatch l c origin_host hash token_by_hash decode v.now v.fresh v.request v.path v.body
          s).2 in
      let (outs, same') =
        visits-IsOutside vs after (subst (λ m. All (IsOutsider m) vs) (sym same) hs) in
      ((out, outs), same' ∙ same)
