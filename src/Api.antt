-- ===== src/Api.antt =====
-- internal/api: the HTTP handlers' state and logic.
pub mod Sessions
pub mod Limiter
pub mod ClientIp
pub mod Auth
pub mod AutoLock
mod Tests
pub mod Input
pub mod Reserve
pub mod Reply
pub mod Operate
pub mod Keyslots
pub mod Grow
pub mod BruteForce
pub mod Tokens
pub mod Stored
pub mod Background
pub mod Create
pub mod Pipeline
pub mod Pages
pub mod Handler
pub mod Routes
pub mod Events
