-- ===== src/Vault.antt =====
-- packages/engine-core/src/vault: the vault's keys, and when they are in memory.
pub mod Crypto
pub mod AutoUnlock
pub mod Session
pub mod State
pub mod Secrets
pub mod Samples
pub mod CredentialBlob
