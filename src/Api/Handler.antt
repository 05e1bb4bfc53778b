-- ===== src/Api/Handler.antt =====
-- internal/api/api.go: the state of `handler`, as `NewMux` makes it, and the three sweeps that
-- `NewMux` starts beside the requests, `cleanupLimiters`, `cleanupJobs` and `cleanupSessions`. What
-- each map is for stands in the module of its operations; the settings are those of Config.Settings
-- and Api.Auth.
pub mod Swept
mod Tests
use lukscrypt.Prelude.{ℕ, []}
use lukscrypt.Api.Sessions.{Policy, Sessions, cleanup_sessions}
use lukscrypt.Api.Limiter.{Limiters, Entries, sweep_limiters}
use lukscrypt.Api.AutoLock.{UnlockedAt}
use lukscrypt.Api.Create.{Creations, no_creations, sweep_jobs}

pub record Handler (l : Limiters) : Type 0 where
  pub creations : Creations
  pub unlock_limiters : Entries l
  pub auth_limiters : Entries l
  pub sessions : Sessions
  pub unlocked_at : UnlockedAt

module _ (l : Limiters) where
  unfoldable pub new_mux : Handler l
  unfolding no_creations
  new_mux = record {
    creations = no_creations;
    unlock_limiters = [];
    auth_limiters = [];
    sessions = [];
    unlocked_at = [];
  }

  -- Both maps, the one after the other.
  unfoldable pub cleanup_limiters : (now : ℕ) → Handler l → Handler l
  unfolding sweep_limiters
  cleanup_limiters now h = record h {
    unlock_limiters = sweep_limiters l now h.unlock_limiters;
    auth_limiters = sweep_limiters l now h.auth_limiters;
  }

  -- A tick of all three, at one time.
  unfoldable pub sweep : Policy → (now : ℕ) → Handler l → Handler l
  unfolding cleanup_limiters cleanup_sessions sweep_jobs
  sweep p now h =
      let h' = cleanup_limiters now h in
      record h' {
        creations = sweep_jobs now h.creations;
        sessions = cleanup_sessions p now h.sessions;
      }
