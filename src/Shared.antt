-- ===== src/Shared.antt =====
-- Utilities that the services share: secrets at rest.
pub mod Hex
pub mod Crypto
pub mod Secrets
pub mod Slugs
pub mod Uniqueness
