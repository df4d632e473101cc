-- ===== src/Uplink.antt =====
-- crates/storj-uplink: the pool of storage-node connections, ranges, and pieces.
pub mod Error
pub mod Pool
pub mod Ranges
pub mod Pieces
mod Runs
mod PieceRuns
