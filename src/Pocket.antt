-- ===== src/Pocket.antt =====
-- packages/pocket-shared/src: what the desktop publishes for the phone and how the phone reads it.
pub mod Bytes
pub mod Blob
pub mod Json
pub mod Payload
pub mod Snapshot
pub mod SyncFile
pub mod Pairing
pub mod Samples
