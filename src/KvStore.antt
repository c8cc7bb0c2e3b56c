-- ===== src/KvStore.antt =====
-- The key-value store (projects/08-basic-key-value-store/store).
pub mod Crc
pub mod Frame
pub mod Memtable
pub mod Wal
pub mod Names
pub mod Sst
pub mod Engine
mod Tests
