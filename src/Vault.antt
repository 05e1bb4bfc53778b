-- ===== src/Vault.antt =====
-- internal/vault: creating, opening, closing, growing and deleting image-backed LUKS vaults, and
-- reading and changing their headers.
pub mod Mounts
pub mod Disk
pub mod Access
pub mod Create
pub mod Header
pub mod Keys
pub mod Resize
mod Tests
