-- ===== src/Storage.antt =====
-- src/storage: the chunk pool, the index and the global writer.
pub mod ChunkPool
pub mod Index
pub mod GlobalWriter
