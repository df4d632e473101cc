-- ===== src/Rpc.antt =====
-- crates/storj-rpc: the DRPC wire format.
pub mod Varint
pub mod Frame
pub mod Assembler
pub mod Conn
pub mod Recv
mod Runs
