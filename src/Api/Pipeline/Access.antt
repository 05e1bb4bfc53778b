-- ===== src/Api/Pipeline/Access.antt =====
-- Who reaches the handlers.
use lukscrypt.Prelude.{
  ℕ, ◌≡◌, refl, ◌↔◌, ◌⊎◌, inl, inr, Bool, true, false, not, ◌&&◌, Option, none, some, [], ◌∷◌,
  arith, Text, text, text_beq, text_beq_iff, is_empty, Bool-cases, Option-cases, if◌then◌else◌,
}
use lukscrypt.Api.Limiter.{Limiters}
use lukscrypt.Api.Sessions.{valid_session}
use lukscrypt.Api.Auth.{Request, Config, Verdict, next, refused, AuthState, csrf_guard}
use lukscrypt.Api.Auth.Laws.{IsKnown, auth_iff}
use lukscrypt.Api.Pipeline.{authenticated}

-- The request only reads, or does not come from a page of another origin.
abbrev pub IsOwn : (origin_host : Text → Option Text) → Request → Type 0
IsOwn origin_host r =
    (r.method ≡ text "GET")
    ⊎ ((r.method ≡ text "HEAD") ⊎ ((r.origin ≡ []) ⊎ (origin_host r.origin ≡ some r.host)))

abbrev is_foreign : Text → Option Text → Bool
is_foreign host none = true
is_foreign host (some h) = not (text_beq h host)

abbrev verdict : (get head empty foreign : Bool) → Verdict
verdict get head empty foreign =
    if not get && not head && not empty && foreign then refused 403 else next

verdict_iff :
    (get head empty : Bool) (o : Option Text) (host : Text)
    → (verdict get head empty (is_foreign host o) ≡ next)
      ↔ ((get ≡ true) ⊎ ((head ≡ true) ⊎ ((empty ≡ true) ⊎ (o ≡ some host))))
verdict_iff true head empty o host = (λ _. inl refl, λ _. refl)
verdict_iff false true empty o host = (λ _. inr (inl refl), λ _. refl)
verdict_iff false false true o host = (λ _. inr (inr (inl refl)), λ _. refl)
verdict_iff false false false none host = (λ e. cc, λ s. ground arith)
verdict_iff false false false (some h) host = ground (arith, text_beq_iff h host)

verdict_cases :
    (get head empty foreign : Bool)
    → (verdict get head empty foreign ≡ next) ⊎ (verdict get head empty foreign ≡ refused 403)
verdict_cases get head empty foreign =
    elim (Bool-cases (not get && not head && not empty && foreign)) [
      | inl stops ↦ rw stops (inr refl)
      | inr passes ↦ rw passes (inl refl)
    ]

is_empty-true : (s : Text) → (is_empty s ≡ true) ↔ (s ≡ [])
is_empty-true [] = (λ _. refl, λ _. refl)
is_empty-true (c ∷ s) = (λ e. cc, λ e. cc)

module _ (origin_host : Text → Option Text) (r : Request) where
  csrf_guard_lem :
      csrf_guard origin_host r
      ≡ verdict
          (text_beq r.method (text "GET"))
          (text_beq r.method (text "HEAD"))
          (is_empty r.origin)
          (is_foreign r.host (origin_host r.origin))
  unfolding csrf_guard
  csrf_guard_lem = elim (Option-cases (origin_host r.origin)) [
    | inl e ↦ rw e refl
    | inr (h, e) ↦ rw e refl
  ]

  csrf_guard_iff : (csrf_guard origin_host r ≡ next) ↔ IsOwn origin_host r
  csrf_guard_iff =
      let get = text_beq_iff r.method (text "GET") in
      let head = text_beq_iff r.method (text "HEAD") in
      let empty = is_empty-true r.origin in
      let (to, from) =
        verdict_iff (text_beq r.method (text "GET")) (text_beq r.method (text "HEAD"))
          (is_empty r.origin) (origin_host r.origin) r.host in
      rw csrf_guard_lem (
        λ e. elim (to e) [
          | inl g ↦ inl (get.0 g)
          | inr (inl h) ↦ inr (inl (head.0 h))
          | inr (inr (inl n)) ↦ inr (inr (inl (empty.0 n)))
          | inr (inr (inr o)) ↦ inr (inr (inr o))
        ],
        elim [
          | inl g ↦ from (inl (get.1 g))
          | inr (inl h) ↦ from (inr (inl (head.1 h)))
          | inr (inr (inl n)) ↦ from (inr (inr (inl (empty.1 n))))
          | inr (inr (inr o)) ↦ from (inr (inr (inr o)))
        ],
      )

  csrf_guard_cases : (csrf_guard origin_host r ≡ next) ⊎ (csrf_guard origin_host r ≡ refused 403)
  csrf_guard_cases = rw csrf_guard_lem (
      verdict_cases (text_beq r.method (text "GET")) (text_beq r.method (text "HEAD"))
        (is_empty r.origin) (is_foreign r.host (origin_host r.origin)))

-- A request reaches the handlers behind the middleware exactly when it only reads or does not come
-- from a page of another origin, and its cookie is a live session's or its Authorization header shows
-- an API token or the master credentials. One from a page of another origin that does not only read
-- gets 403, and changes neither the sessions nor the limiters.
pub authenticated_iff :
    (l : Limiters) (c : Config) (origin_host : Text → Option Text) (hash : Text → Text)
    (token_by_hash : Text → Option ℕ) (now : ℕ) (r : Request) (s : AuthState l)
    → (((authenticated l c origin_host hash token_by_hash now r s).0 ≡ next) ↔ (
        IsOwn origin_host r
        × (((valid_session c.policy now r.cookie s.sessions).0 ≡ true)
            ⊎ IsKnown hash token_by_hash c r)))
      × (IsOwn origin_host r
          ⊎ (authenticated l c origin_host hash token_by_hash now r s ≡ (refused 403, s)))
unfolding authenticated
authenticated_iff l c origin_host hash token_by_hash now r s =
    let (own, back) = csrf_guard_iff origin_host r in
    let (known, from) = auth_iff l hash token_by_hash c now r s in
    elim (csrf_guard_cases origin_host r) [
      | inl passes ↦ rw passes ((λ e. (own passes, known e), λ t. from t.1), inl (own passes))
      | inr stops ↦ rw stops ((λ e. cc, λ t. let k = back t.0 in cc), inr refl)
    ]
