-- ===== src/Api/Limiter.antt =====
-- internal/api/api.go: the rate limiters per client address, `unlockAllowed`, `authAllowed`,
-- `clearAuthFailures` and the sweep of `cleanupLimiters`. The token bucket itself is that of
-- golang.org/x/time/rate, a parameter. Times are in nanoseconds.
pub mod Bound
pub mod Tests
use lukscrypt.Prelude.{
  ℕ, ◌+◌, ◌-◌, ◌*◌, ◌^◌, Bool, ◌&&◌, Option, none, some, List, [], ◌∷◌, arith, ltb, if◌then◌else◌,
  Eq, nat_eq, all, Text, text, text_beq, text_eq,
}
use lukscrypt.Prelude.Dict.{Dict, lookup, insert, erase, discard}

-- `rate.Limiter`, `rate.NewLimiter(rate.Every(interval), burst)` and `Allow` at a time.
pub record Limiters : Type 1 where
  pub State : Type 0
  pub new : (interval burst : ℕ) → State
  pub allow : ℕ → State → Bool × State

abbrev pub second : ℕ
second = 10 ^ 9

-- What happens to the unlock limiters.
pub data Event : Type 0 where
  attempted : ℕ → Text → Event
  swept : ℕ → Event

module _ (r : Limiters) where
  open r use {State, new, allow}

  pub record Entry : Type 0 where
    pub limiter : State
    pub last_seen : ℕ

  abbrev pub Entries : Type 0
  Entries = Dict Text Entry

  abbrev pub entry_or_new : (interval burst : ℕ) → Option Entry → State
  entry_or_new interval burst none = new interval burst
  entry_or_new interval burst (some e) = e.limiter

  -- One attempt: the address's entry, made if it is missing, is asked and stamped.
  unfoldable pub attempt : (interval burst now : ℕ) → Text → Entries → Bool × Entries
  attempt interval burst now ip m =
      let (allowed, s) = allow now (entry_or_new interval burst (lookup ip m)) in
      (allowed, insert ip (record { limiter = s; last_seen = now }) m)

  unfoldable pub unlock_allowed : ℕ → Text → Entries → Bool × Entries
  unfolding attempt
  unlock_allowed now ip m = attempt (30 * second) 5 now ip m

  unfoldable pub auth_allowed : ℕ → Text → Entries → Bool × Entries
  unfolding attempt
  auth_allowed now ip m = attempt (60 * second) 5 now ip m

  unfoldable pub clear_auth_failures : Text → Entries → Entries
  clear_auth_failures ip m = erase ip m

  abbrev pub is_idle : ℕ → Entry → Bool
  is_idle now e = ltb (600 * second) (now - e.last_seen)

  unfoldable pub sweep_limiters : ℕ → Entries → Entries
  sweep_limiters now m = discard (is_idle now) m

  unfoldable pub step : Event → Entries → Entries
  unfolding unlock_allowed sweep_limiters
  step (attempted now ip) m = (unlock_allowed now ip m).1
  step (swept now) m = sweep_limiters now m

  -- Whether the event is an attempt of the address that is allowed.
  unfoldable pub grants : Text → Event → Entries → ℕ
  unfolding unlock_allowed
  grants ip (attempted now other) m =
      if text_beq other ip && (unlock_allowed now other m).0 then 1 else 0
  grants ip (swept now) m = 0

  -- How many attempts of the address are allowed.
  unfoldable pub granted : Text → List Event → Entries → ℕ
  unfolding grants step
  granted ip [] m = 0
  granted ip (e ∷ es) m = grants ip e m + granted ip es (step e m)
