-- ===== src/Api/Handler/Swept.antt =====
-- What the sweeps forget.
use lukscrypt.Prelude.{
  ℕ, Text, text_eq, nat_eq, ◌≡◌, refl, Bool, ◌||◌, ◌∙◌, Option, none, some, ltb, ◌-◌, ◌*◌,
}
use lukscrypt.Prelude.Dict.{lookup, lookup-discard, NodupKeys, unless}
use lukscrypt.Api.Sessions.{Policy, Session}
use lukscrypt.Api.Sessions.Cleanup.{unless_expired, lookup-cleanup_sessions}
use lukscrypt.Api.Limiter.{Limiters, second, sweep_limiters}
use lukscrypt.Api.Events.{cleanup_jobs}
use lukscrypt.Api.Create.{sweep_jobs}
use lukscrypt.Api.Handler.{Handler, cleanup_limiters, sweep}

-- The handler's maps have one entry a key.
pub record IsKeyed (l : Limiters) (h : Handler l) : Type 0 where
  pub jobs : NodupKeys h.creations.jobs
  pub unlocks : NodupKeys h.unlock_limiters
  pub auths : NodupKeys h.auth_limiters
  pub sessions : NodupKeys h.sessions

-- A time that lies more seconds back.
abbrev pub is_past : (seconds now since : ℕ) → Bool
is_past seconds now since = ltb (seconds * second) (now - since)

-- A session that was idle, or has lived, for longer than the policy has it.
abbrev pub is_over : Policy → (now : ℕ) → Session → Bool
is_over p now s = ltb p.idle (now - s.last_seen) || ltb p.max_age (now - s.created_at)

unless_expired_lem :
    (p : Policy) (now : ℕ) (o : Option Session) → unless_expired p now o ≡ unless (is_over p now) o
unless_expired_lem p now none = refl
unless_expired_lem p now (some s) = refl

-- Over maps that have one entry a key, a tick of the sweeps forgets exactly the addresses that have
-- not been seen for more than 600 seconds, the jobs that were created more than 1800 seconds ago,
-- and the sessions that were idle or have lived for longer than the policy has it; the reservations,
-- the running creations and the unlock times stay as they are.
pub sweep-lookup :
    (l : Limiters) (p : Policy) (now : ℕ) (h : Handler l) (key : Text)
    → IsKeyed l h
    → let h' = sweep l p now h in
      (lookup key h'.unlock_limiters
        ≡ unless (λ e. is_past 600 now e.last_seen) (lookup key h.unlock_limiters))
      × (lookup key h'.auth_limiters
          ≡ unless (λ e. is_past 600 now e.last_seen) (lookup key h.auth_limiters))
      × (lookup key h'.creations.jobs ≡ unless (is_past 1800 now) (lookup key h.creations.jobs))
      × (lookup key h'.sessions ≡ unless (is_over p now) (lookup key h.sessions))
      × (h'.creations.pending ≡ h.creations.pending)
      × (h'.creations.running ≡ h.creations.running)
      × (h'.unlocked_at ≡ h.unlocked_at)
unfolding sweep cleanup_limiters sweep_limiters sweep_jobs cleanup_jobs
sweep-lookup l p now h key k = (
  lookup-discard (λ e. is_past 600 now e.last_seen) key h.unlock_limiters k.unlocks,
  lookup-discard (λ e. is_past 600 now e.last_seen) key h.auth_limiters k.auths,
  lookup-discard (is_past 1800 now) key h.creations.jobs k.jobs,
  lookup-cleanup_sessions p now key h.sessions k.sessions
      ∙ unless_expired_lem p now (lookup key h.sessions),
  refl,
  refl,
  refl,
)
