-- ===== src/Storage/ChunkPool/Types.antt =====
-- The constants and the data of src/storage/chunk_pool.rs, lines 46-99.
use oasis_nvr.Prelude.{ℕ, ◌+◌, List, [], ◌∷◌}
use oasis_nvr.Chrono.{Time}
use oasis_nvr.Utf8.{Text}

-- b"NVRPOOL0"
abbrev pub pool_magic : List ℕ
pool_magic = 78 ∷ 86 ∷ 82 ∷ 80 ∷ 79 ∷ 79 ∷ 76 ∷ 48 ∷ []

-- b"NREC"
abbrev pub record_magic : List ℕ
record_magic = 78 ∷ 82 ∷ 69 ∷ 67 ∷ []

abbrev pub pool_header_size : ℕ
pool_header_size = 64

abbrev pub record_header_size : ℕ
record_header_size = 4 + 16 + 8 + 8 + 4

pub record SegmentLocation : Type 0 where
  pub pool_idx : ℕ
  pub pool_id : ℕ
  pub record_offset : ℕ
  pub record_size : ℕ

pub record ScannedRecord : Type 0 where
  pub camera_id : Text
  pub start_ts : Time
  pub end_ts : Time
  pub pool_idx : ℕ
  pub pool_id : ℕ
  pub record_offset : ℕ
  pub record_size : ℕ

-- `path` is `pool_{i:03}.bin` for the slot at index `i`: the slot's index stands for it.
pub record PoolSlot : Type 0 where
  pub pool_id : ℕ
  pub bytes_used : ℕ

-- The read counters, shared with the API, are in `Readers`.
pub record ChunkPool : Type 0 where
  pub pool_capacity : ℕ
  pub slots : List PoolSlot
  pub write_idx : ℕ
