-- ===== src/Ec.antt =====
-- crates/storj-ec: Reed-Solomon erasure coding over GF(256).
pub mod Error
pub mod Field
pub mod Matrix
pub mod Codec
pub mod Vector
mod Runs
