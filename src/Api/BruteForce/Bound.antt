-- ===== src/Api/BruteForce/Bound.antt =====
-- How fast an address can try credentials through the API.
use lukscrypt.Prelude.{
  ℕ, ◌+◌, ◌-◌, ◌*◌, ◌/◌, ◌≤◌, Text, Bool, true, false, Option, List, [], ◌∷◌, map, arith, text_beq,
  ◌&&◌, if◌then◌else◌,
}
use lukscrypt.Sys.{Res, Prog, ◌>>◌}
use lukscrypt.Sys.Ensures.{Ensures, Ensures-mono}
use lukscrypt.Sys.Attempts.{AtMost, AtMost-bind, AtMost-mono, AtMost-Ensures, count}
use lukscrypt.Vault.Header.{Luks2Header}
use lukscrypt.Api.Limiter.{
  Limiters, Entries, second, granted, grants, step, unlock_allowed, sweep_limiters,
}
use lukscrypt.Api.Limiter.Bound.{IsTokenBucket, AreWithin, granted-le}
use lukscrypt.Api.Operate.{unlock_vault}
use lukscrypt.Api.Operate.Attempts.{unlock_vault-AtMost}
use lukscrypt.Api.Grow.{grow_vault}
use lukscrypt.Api.Grow.Attempts.{grow_vault-AtMost}
use lukscrypt.Api.Keyslots.{keyslot_add, keyslot_remove}
use lukscrypt.Api.Keyslots.Attempts.{keyslot_add-AtMost, keyslot_remove-AtMost}
use lukscrypt.Api.BruteForce.{
  Guarded, unlock, grow, add_key, remove_key, Traffic, request, sweep, as_event, serve, requests_of,
}

module _ (decode : Text → Option Text) (unmarshal : Text → Res Luks2Header) (max_size_gb : ℕ) where
  serve-AtMost : (g : Guarded) → AtMost 1 (serve decode unmarshal max_size_gb true g)
  unfolding serve
  serve-AtMost (unlock id b) =
      AtMost-bind 1 0 (unlock_vault decode true id b) _ (unlock_vault-AtMost decode id b) λ r. tt
  serve-AtMost (grow id b) =
      AtMost-bind 1 0 (grow_vault max_size_gb decode true id b) _
        (grow_vault-AtMost max_size_gb decode id b) λ r. tt
  serve-AtMost (add_key id b) =
      AtMost-bind 1 0 (keyslot_add unmarshal decode true id b) _
        (keyslot_add-AtMost unmarshal decode id b) λ r. tt
  serve-AtMost (remove_key id b) =
      AtMost-bind 1 0 (keyslot_remove unmarshal decode true id b) _
        (keyslot_remove-AtMost unmarshal decode id b) λ r. tt

  serve_refused-AtMost : (g : Guarded) → AtMost 0 (serve decode unmarshal max_size_gb false g)
  unfolding serve unlock_vault grow_vault keyslot_add keyslot_remove
  serve_refused-AtMost (unlock id b) = tt
  serve_refused-AtMost (grow id b) = tt
  serve_refused-AtMost (add_key id b) = tt
  serve_refused-AtMost (remove_key id b) = tt

  serve_lem :
      (allowed : Bool) (g : Guarded)
      → AtMost (if allowed then 1 else 0) (serve decode unmarshal max_size_gb allowed g)
  serve_lem true g = serve-AtMost g
  serve_lem false g = serve_refused-AtMost g

  one_request_lem :
      (same allowed : Bool) (g : Guarded) (n : ℕ) (rest : Prog (Unit {0}))
      → AtMost n rest
      → AtMost
          ((if same && allowed then 1 else 0) + n)
          (if same then serve decode unmarshal max_size_gb allowed g >> rest else rest)
  one_request_lem true allowed g n rest h =
      AtMost-bind (if allowed then 1 else 0) n (serve decode unmarshal max_size_gb allowed g) _
        (serve_lem allowed g) λ _. h
  one_request_lem false allowed g n rest h = AtMost-mono n (0 + n) rest (omega arith) h

  module _ (r : Limiters) where
    requests_of-AtMost :
        (ip : Text) (ts : List Traffic) (m : Entries r)
        → AtMost
            (granted r ip (map as_event ts) m)
            (requests_of decode unmarshal max_size_gb r ip ts m)
    unfolding requests_of granted grants step
    requests_of-AtMost ip [] m = tt
    requests_of-AtMost ip (request now other g ∷ ts) m =
        one_request_lem (text_beq other ip) (unlock_allowed r now other m).0 g _ _
          (requests_of-AtMost ip ts (unlock_allowed r now other m).1)
    requests_of-AtMost ip (sweep now ∷ ts) m =
        AtMost-mono _ _ (requests_of decode unmarshal max_size_gb r ip ts (sweep_limiters r now m))
          (omega arith) (requests_of-AtMost ip ts (sweep_limiters r now m))

    -- Where the limiters are token buckets and the clock does not go back: between two times the
    -- unlocking, growing and keyslot requests of one client address together run at most five
    -- commands that try a credential, and one more for each thirty seconds, whatever the requests
    -- say, whatever the system answers, and whatever others ask for.
    pub requests_of-bound :
        (bucket : IsTokenBucket r) (ip : Text) (t u : ℕ) (ts : List Traffic)
        → AreWithin r bucket t u (map as_event ts)
        → Ensures count
            (λ n _. n ≤ 5 + (u - t) / (30 * second))
            0
            (requests_of decode unmarshal max_size_gb r ip ts [])
    requests_of-bound bucket ip t u ts w =
        Ensures-mono count (λ n _. n ≤ 0 + granted r ip (map as_event ts) [])
          (λ n _. n ≤ 5 + (u - t) / (30 * second))
          (requests_of decode unmarshal max_size_gb r ip ts []) 0
          (AtMost-Ensures (granted r ip (map as_event ts) []) 0
            (requests_of decode unmarshal max_size_gb r ip ts []) (requests_of-AtMost ip ts []))
          λ n _ l. omega (arith, l, granted-le r bucket ip t u (map as_event ts) w)
