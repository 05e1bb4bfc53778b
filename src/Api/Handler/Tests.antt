-- ===== src/Api/Handler/Tests.antt =====
-- A tick of the sweeps over a handler with one entry in each map.
use lukscrypt.Prelude.{◌*◌, text, text_eq, nat_eq, [], ◌∷◌, ◌≡◌, refl}
use lukscrypt.Prelude.Dict.{discard, lookup, unless}
use lukscrypt.Api.Sessions.{Policy, cleanup_sessions}
use lukscrypt.Api.Create.{sweep_jobs}
use lukscrypt.Api.Events.{cleanup_jobs}
use lukscrypt.Api.Limiter.{Entry, second, sweep_limiters}
use lukscrypt.Api.Limiter.Tests.{buckets}
use lukscrypt.Api.Handler.Swept.{IsKeyed, is_past, is_over, sweep-lookup}
use lukscrypt.Api.Handler.{Handler, cleanup_limiters, sweep}

abbrev policy : Policy
policy = record { idle = 30 * second; max_age = 100 * second }

abbrev idle_entry : Entry buckets
idle_entry = record {
  limiter = record { interval = 30 * second; burst = 5; level = 0; at = 0 };
  last_seen = 0;
}

abbrev busy : Handler buckets
busy = record {
  creations = record {
    pending = record { names = text "photos" ∷ []; paths = text "/v/photos.img" ∷ [] };
    jobs = (text "0a", 0) ∷ [];
    running = [];
  };
  unlock_limiters = (text "10.0.0.1", idle_entry) ∷ [];
  auth_limiters = [];
  sessions = (text "abc", record { created_at = 0; last_seen = 50 * second }) ∷ [];
  unlocked_at = (7, 0) ∷ [];
}

sweep_test :
    let h' = sweep buckets policy (601 * second) busy in
    (h'.unlock_limiters ≡ []) × (h'.sessions ≡ []) × (h'.creations.jobs ≡ busy.creations.jobs)
unfolding sweep cleanup_limiters sweep_limiters sweep_jobs cleanup_sessions cleanup_jobs discard
sweep_test = (refl, refl, refl)

busy-IsKeyed : IsKeyed buckets busy
unfolding lookup
busy-IsKeyed = record { jobs = (refl, tt); unlocks = (refl, tt); auths = tt; sessions = (refl, tt) }

sweep-lookup_example :
    let key = text "abc" in
    let now = 601 * second in
    let h' = sweep buckets policy now busy in
    (lookup key h'.unlock_limiters
      ≡ unless (λ e. is_past 600 now e.last_seen) (lookup key busy.unlock_limiters))
    × (lookup key h'.auth_limiters
        ≡ unless (λ e. is_past 600 now e.last_seen) (lookup key busy.auth_limiters))
    × (lookup key h'.creations.jobs ≡ unless (is_past 1800 now) (lookup key busy.creations.jobs))
    × (lookup key h'.sessions ≡ unless (is_over policy now) (lookup key busy.sessions))
    × (h'.creations.pending ≡ busy.creations.pending)
    × (h'.creations.running ≡ busy.creations.running)
    × (h'.unlocked_at ≡ busy.unlocked_at)
sweep-lookup_example = sweep-lookup buckets policy (601 * second) busy (text "abc") busy-IsKeyed
