-- ===== src/Tests/StorageTests.antt =====
-- The theorems on the storage at concrete inputs.
use oasis_nvr.Prelude.{
  ℕ, ◌≡◌, ◌≢◌, refl, Bool, false, some, List, [], ◌∷◌, ◌++◌, arith, ◌==◌, if◌then◌else◌, replicate,
  take,
}
use oasis_nvr.Chrono.{Time}
use oasis_nvr.Outcome.{ok}
use oasis_nvr.Storage.ChunkPool.Types.{SegmentLocation, record_magic}
use oasis_nvr.Storage.ChunkPool.Record.{Segment, scan_from, scan_records}
use oasis_nvr.Storage.ChunkPool.Record.Fuel.{scan_from-fuel}
use oasis_nvr.Storage.ChunkPool.Record.RoundTrip.{IsStorable}
use oasis_nvr.Storage.ChunkPool.Record.Scan.{layout, recovered_all, scan_records-layout}
use oasis_nvr.Storage.ChunkPool.Readers.{PoolReadCounters}
use oasis_nvr.Storage.ChunkPool.Files.{Store}
use oasis_nvr.Storage.ChunkPool.Pool.Append.{Holds}
use oasis_nvr.Storage.Index.{SegmentIndex, evict_pool}
use oasis_nvr.Storage.Index.Laws.{IsValid}
use oasis_nvr.Storage.GlobalWriter.{WriterState, write_step}
use oasis_nvr.Storage.GlobalWriter.Steps.{write_step-too_large}
use oasis_nvr.Tests.Fixtures.{calendar, cam1, cam2, segment}

abbrev pub no_clock : ℕ → Time
no_clock o = 0

abbrev pub header64 : List ℕ
header64 = replicate 64 7

abbrev pub first : Segment
first = segment cam1 5 (1 ∷ 2 ∷ 3 ∷ [])

abbrev pub second : Segment
second = segment cam2 6 (4 ∷ [])

pub first-IsStorable : IsStorable calendar first
first-IsStorable = omega arith

pub second-IsStorable : IsStorable calendar second
second-IsStorable = omega arith

pub not_magic : take 4 (replicate 20 0) ≢ record_magic
not_magic e = ground arith

scan_records-layout_example :
    scan_records calendar no_clock 0 9 200
      (header64 ++ layout calendar (first ∷ second ∷ []) (replicate 20 0))
    ≡ ok (recovered_all 0 9 64 (first ∷ second ∷ []))
scan_records-layout_example =
    scan_records-layout calendar no_clock 0 9 200 header64 (first ∷ second ∷ []) (replicate 20 0)
      refl (omega arith) (first-IsStorable, (second-IsStorable, tt)) (omega arith) not_magic

scan_from-fuel_example :
    scan_from calendar no_clock 0 0 200 0 64 [] ≡ scan_from calendar no_clock 0 0 200 9 64 []
scan_from-fuel_example =
    scan_from-fuel calendar no_clock 0 0 200 0 9 64 [] (omega arith) (omega arith)

-- Two pools of 200 bytes; pool 0 holds one segment.
abbrev pub two_pools : Store
two_pools = record {
  pool = record {
    pool_capacity = 200;
    slots = record { pool_id = 0; bytes_used = 43 } ∷ record { pool_id = 1; bytes_used = 0 } ∷ [];
    write_idx = 0;
  };
  disk = λ i.
      if i == 0
      then some (header64 ++ layout calendar (first ∷ []) (replicate 157 0))
      else some (header64 ++ replicate 200 0);
}

pub two_pools-Holds : Holds calendar two_pools 0 0 (first ∷ [])
two_pools-Holds = record {
  header = header64;
  tail = replicate 157 0;
  slot = refl;
  file = refl;
  header_size = refl;
  storable = (first-IsStorable, tt);
  fits = omega arith;
}

pub never : ℕ → Bool
never k = false

abbrev huge : Segment
huge = segment cam1 7 (replicate 161 1)

abbrev idle : PoolReadCounters
idle = record { counters = 0 ∷ 2 ∷ [] }

abbrev location : ℕ → SegmentLocation
location i = record { pool_idx = i; pool_id = i; record_offset = 64; record_size = 41 }

abbrev one_entry : SegmentIndex
one_entry = record {
  entries =
      (
        record { camera_id = cam2; start_ts = 5; segment_id = 0 },
        record {
          segment_id = 0;
          camera_id = cam2;
          start_ts = 5;
          end_ts = 6;
          location = location 1;
        },
      )
      ∷ [];
  segment_counter = 1;
}

one_entry-IsValid : IsValid one_entry
one_entry-IsValid = record {
  ordered = (tt, tt);
  distinct = (tt, tt);
  filed =
      (record { same_camera = refl; same_start = refl; same_id = refl; given = omega arith }, tt);
}

abbrev writer : WriterState
writer = record { store = two_pools; index = one_entry }

write_step-too_large_example :
    write_step calendar never 0 writer huge
    ≡ ok (record { store = two_pools; index = evict_pool one_entry 1 })
write_step-too_large_example =
    write_step-too_large calendar never 0 writer huge (record { pool_id = 0; bytes_used = 43 }) refl
      (omega arith) (omega arith)
