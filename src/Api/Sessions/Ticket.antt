-- ===== src/Api/Sessions/Ticket.antt =====
-- What one token opens, with nothing else in the table.
use lukscrypt.Prelude.{
  ℕ, ◌≤◌, Bool, false, not, Option, none, some, List, [], ◌∷◌, if◌then◌else◌, nat_eq, Text,
  text_beq, text_eq,
}
use lukscrypt.Api.Sessions.{Session, Policy, is_expired, Event, request, login, logout, cleanup}
use lukscrypt.Api.Sessions.Cleanup.{unless_expired}

-- The abstract view: what one token opens. Nothing is ever removed because it expired, and the
-- events of other tokens do not count.
abbrev pub Ticket : Type 0
Ticket = Option Session

abbrev pub touch : ℕ → Ticket → Ticket → Ticket
touch now none t = t
touch now (some s) t = some (record s { last_seen = now })

abbrev pub accepts : Policy → ℕ → Ticket → Bool
accepts p now none = false
accepts p now (some s) = not (is_expired p now s)

abbrev pub use_ticket : Policy → Text → Event → Ticket → Ticket
use_ticket p token (request now none) t = t
use_ticket p token (request now (some k)) t =
    if text_beq k token then touch now (unless_expired p now t) t else t
use_ticket p token (login now k) t =
    if text_beq k token then some (record { created_at = now; last_seen = now }) else t
use_ticket p token (logout none) t = t
use_ticket p token (logout (some k)) t = if text_beq k token then none else t
use_ticket p token (cleanup now) t = t

abbrev pub use_all : Policy → Text → List Event → Ticket → Ticket
use_all p token [] t = t
use_all p token (e ∷ es) t = use_all p token es (use_ticket p token e t)

-- The clock does not go back.
abbrev pub AtLeast : ℕ → Event → Type 0
AtLeast t (request now k) = t ≤ now
AtLeast t (login now k) = t ≤ now
AtLeast t (logout k) = Unit
AtLeast t (cleanup now) = t ≤ now

abbrev pub clock : ℕ → Event → ℕ
clock t (request now k) = now
clock t (login now k) = now
clock t (logout k) = t
clock t (cleanup now) = now

abbrev pub AreLater : ℕ → ℕ → List Event → Type 0
AreLater t u [] = t ≤ u
AreLater t u (e ∷ es) = AtLeast t e × AreLater (clock t e) u es
