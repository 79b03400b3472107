-- ===== src/Mpool.antt =====
-- The memory pools of mpool-2.1.0.
pub mod Bytes
pub mod State
pub mod Bits
pub mod Pages
pub mod Free
pub mod Space
pub mod Calls
pub mod Open
pub mod Valid
mod Tests
