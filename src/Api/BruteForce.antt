-- ===== src/Api/BruteForce.antt =====
-- internal/api/api.go: the requests that try a credential on a keyslot, which share one rate
-- limiter, `unlockAllowed` in `unlockVault`, `growVault`, `keyslotAdd` and `keyslotRemove`.
pub mod Bound
pub mod Tests
use lukscrypt.Prelude.{ℕ, Text, Bool, Option, List, [], ◌∷◌, text_beq, if◌then◌else◌}
use lukscrypt.Sys.{Res, Prog, give, ◌>>=◌, ◌>>◌}
use lukscrypt.Vault.Header.{Luks2Header}
use lukscrypt.Api.Limiter.{
  Limiters, Entries, Event, attempted, swept, unlock_allowed, sweep_limiters,
}
use lukscrypt.Api.Operate.{UnlockRequest, unlock_vault}
use lukscrypt.Api.Grow.{GrowRequest, grow_vault}
use lukscrypt.Api.Keyslots.{AddRequest, RemoveRequest, keyslot_add, keyslot_remove}

-- The path's id and the decoded body.
pub data Guarded : Type 0 where
  unlock : Text → Option UnlockRequest → Guarded
  grow : Text → Option GrowRequest → Guarded
  add_key : Text → Option AddRequest → Guarded
  remove_key : Text → Option RemoveRequest → Guarded

-- What reaches the limiter: requests with their time and client address, and its sweeps.
pub data Traffic : Type 0 where
  request : (now : ℕ) → (ip : Text) → Guarded → Traffic
  sweep : (now : ℕ) → Traffic

abbrev pub as_event : Traffic → Event
as_event (request now ip g) = attempted now ip
as_event (sweep now) = swept now

module _ (decode : Text → Option Text) (unmarshal : Text → Res Luks2Header) (max_size_gb : ℕ) where
  unfoldable pub serve : (allowed : Bool) → Guarded → Prog (Unit {0})
  unfolding unlock_vault grow_vault keyslot_add keyslot_remove
  serve allowed (unlock id body) = unlock_vault decode allowed id body >> give tt
  serve allowed (grow id body) = grow_vault max_size_gb decode allowed id body >> give tt
  serve allowed (add_key id body) = keyslot_add unmarshal decode allowed id body >> give tt
  serve allowed (remove_key id body) = keyslot_remove unmarshal decode allowed id body >> give tt

  module _ (r : Limiters) where
    -- What the requests of one address do. Those of others only reach the limiter here: what their
    -- handlers do, the answers of the system stand for.
    unfoldable pub requests_of : (ip : Text) → List Traffic → Entries r → Prog (Unit {0})
    unfolding serve unlock_allowed sweep_limiters
    requests_of ip [] m = give tt
    requests_of ip (request now other g ∷ ts) m =
        let (allowed, m') = unlock_allowed r now other m in
        let rest = requests_of ip ts m' in
        if text_beq other ip then serve allowed g >> rest else rest
    requests_of ip (sweep now ∷ ts) m = requests_of ip ts (sweep_limiters r now m)
