-- ===== src/Storage/ChunkPool.antt =====
-- src/storage/chunk_pool.rs. The children hold the data (`Types`), the record format and its scan
-- (`Record`), the read counters (`Readers`), the files (`Files`), the operations of an open pool
-- (`Pool`), and opening and scanning the pool (`Open`).
pub mod Types
pub mod Record
pub mod Readers
pub mod Files
pub mod Pool
pub mod Ring
pub mod Open
