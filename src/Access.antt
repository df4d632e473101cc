-- ===== src/Access.antt =====
-- crates/storj-access: macaroons, caveats, path restrictions and Base58Check.
pub mod Error
pub mod Uvarint
pub mod Packet
pub mod Macaroon
pub mod Prefixes
pub mod Base58
pub mod ApiKey
pub mod Time
pub mod Permission
pub mod Caveat
pub mod EncAccess
pub mod Grant
mod Coders
mod SampleMessages
mod Sample
mod Runs
mod GrantRuns
