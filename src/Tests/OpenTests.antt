-- ===== src/Tests/OpenTests.antt =====
-- The theorems on opening the pool files at concrete inputs.
use oasis_nvr.Prelude.{
  ℕ, ◌+◌, ◌<◌, ◌≡◌, refl, ap, some, [], ◌++◌, arith, ◌==◌, if◌then◌else◌, replicate, bytes_eq,
  from_le_bytes, le_bytes, from_le_bytes-le_bytes,
}
use oasis_nvr.Outcome.{ok}
use oasis_nvr.Storage.ChunkPool.Record.{read_exact, scan_round, scan_from, scan_records}
use oasis_nvr.Storage.ChunkPool.Files.{Disk, Store}
use oasis_nvr.Storage.ChunkPool.Pool.{pool_header}
use oasis_nvr.Storage.ChunkPool.Open.{read_pool_header, open_pool}
use oasis_nvr.Storage.ChunkPool.Open.Resume.{Found, open_pool-last, open_pool-greatest}
use oasis_nvr.Tests.Fixtures.{calendar}
use oasis_nvr.Tests.StorageTests.{no_clock}

-- The files of two pools when the ring has come round to pool 0, and of three pools when it has come
-- to pool 1 for the first time, so that pool 2 has no header yet.
abbrev come_round : Disk
come_round i =
    if i == 0
    then some (pool_header calendar 2 0 ++ replicate 80 0)
    else some (pool_header calendar 3 0 ++ replicate 80 0)

abbrev first_lap : Disk
first_lap i =
    if i == 2
    then some (replicate 144 0)
    else some (pool_header calendar (if i == 1 then 4 else 0) 0 ++ replicate 80 0)

abbrev first_lap_ids : ℕ → ℕ
first_lap_ids i = if i == 1 then 4 else 0

found :
    (disk : Disk) (i id : ℕ)
    → id < 256
    → disk i ≡ some (pool_header calendar id 0 ++ replicate 80 0)
    → Found calendar no_clock 80 disk i id
unfolding read_pool_header read_exact pool_header le_bytes from_le_bytes bytes_eq scan_records
    scan_from scan_round
found disk i id small e = record {
  file = pool_header calendar id 0 ++ replicate 80 0;
  records = [];
  created = 0;
  there = e;
  header = ap (λ (n : ℕ). ok (n, 0)) (from_le_bytes-le_bytes 8 id (omega arith));
  scanned = refl;
}

found_zeros :
    (disk : Disk) (i : ℕ) → disk i ≡ some (replicate 144 0) → Found calendar no_clock 80 disk i 0
unfolding read_pool_header read_exact bytes_eq scan_records scan_from scan_round
found_zeros disk i e = record {
  file = replicate 144 0;
  records = [];
  created = 0;
  there = e;
  header = refl;
  scanned = refl;
}

come_round_resumes :
    (s : Store) × (open_pool calendar no_clock 80 0 come_round 2 ≡ ok s)
    × (s.pool.write_idx ≡ 1)
    × (s.disk ≡ come_round)
come_round_resumes =
    open_pool-last calendar no_clock 80 0 come_round 1 (λ i. i + 2)
      (found come_round 0 2 (omega arith) refl, (found come_round 1 3 (omega arith) refl, tt))
      (λ k l. omega arith)

open_pool-greatest_example :
    (s : Store) × (open_pool calendar no_clock 80 0 first_lap 3 ≡ ok s)
    × (s.pool.write_idx ≡ 1)
    × (s.disk ≡ first_lap)
open_pool-greatest_example =
    open_pool-greatest calendar no_clock 80 0 first_lap 2 first_lap_ids 1
      (
        found first_lap 0 0 (omega arith) refl,
        (found first_lap 1 4 (omega arith) refl, (found_zeros first_lap 2 refl, tt)),
      )
      (omega arith) (λ k l. ground arith) (λ k l m. ground arith)
