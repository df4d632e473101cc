-- ===== src/Encryption.antt =====
-- crates/storj-encryption: padding, path segments, path encryption, block transforms and the store.
pub mod Error
pub mod Pad
pub mod Segment
pub mod Cipher
pub mod Path
pub mod Transform
pub mod Store
pub mod StorePaths
pub mod Sample
mod Runs
mod StoreRuns
