-- ===== src/Tests/WriterTests.antt =====
-- The theorems on the writer's loop at a pool of two files.
use oasis_nvr.Prelude.{ℕ, zero, suc, ◌≤◌, ◌<◌, refl, [], ◌∷◌, arith, ◌==◌, if◌then◌else◌, replicate}
use oasis_nvr.Storage.ChunkPool.Record.{Segment}
use oasis_nvr.Storage.ChunkPool.Record.RoundTrip.{IsStorable}
use oasis_nvr.Storage.ChunkPool.Record.Scan.{total_size}
use oasis_nvr.Storage.ChunkPool.Pool.{append}
use oasis_nvr.Storage.ChunkPool.Pool.Append.{Holds}
use oasis_nvr.Storage.ChunkPool.Ring.{View, Ring, ring_append, ring_run, Represents}
use oasis_nvr.Storage.ChunkPool.Ring.Refines.{Stores, append-Represents}
use oasis_nvr.Storage.Index.{SegmentIndex}
use oasis_nvr.Storage.GlobalWriter.{WriterState, write_step, writer_loop}
use oasis_nvr.Storage.GlobalWriter.Serves.{Serves}
use oasis_nvr.Storage.GlobalWriter.Refines.{Steps, write_step-Serves}
use oasis_nvr.Storage.GlobalWriter.Loop.{Runs, writer_loop-Serves}
use oasis_nvr.Tests.Fixtures.{calendar, cam1, cam2, segment}
use oasis_nvr.Tests.StorageTests.{
  first, second, second-IsStorable, two_pools, two_pools-Holds, header64, never,
}

abbrev two_views : ℕ → View
two_views i =
    if i == 0
    then record { pool_id = 0; segments = first ∷ [] }
    else record { pool_id = 1; segments = [] }

abbrev pub two_views_ring : Ring
two_views_ring = record { current = 0; view = two_views }

holds : (i : ℕ) → i < 2 → Holds calendar two_pools i (two_views i).pool_id (two_views i).segments
holds zero h = two_pools-Holds
holds (suc zero) h = record {
  header = header64;
  tail = replicate 200 0;
  slot = refl;
  file = refl;
  header_size = refl;
  storable = tt;
  fits = omega arith;
}
holds (suc (suc i)) h = absurd (omega arith)

within : (i : ℕ) → i < 2 → total_size (two_views i).segments ≤ 200
within zero h = omega arith
within (suc zero) h = omega arith
within (suc (suc i)) h = absurd (omega arith)

pub two_pools-Represents : Represents calendar two_pools two_views_ring
two_pools-Represents = record {
  same_current = refl;
  in_range = omega arith;
  holds = holds;
  within = within;
  bounded = omega arith;
}

-- The index of the segment in pool 0.
abbrev pub first_index : SegmentIndex
first_index = record {
  entries =
      (
        record { camera_id = cam1; start_ts = first.start_ts; segment_id = 0 },
        record {
          segment_id = 0;
          camera_id = cam1;
          start_ts = first.start_ts;
          end_ts = first.end_ts;
          location = record { pool_idx = 0; pool_id = 0; record_offset = 64; record_size = 43 };
        },
      )
      ∷ [];
  segment_counter = 1;
}

abbrev pub full_writer : WriterState
full_writer = record { store = two_pools; index = first_index }

pub full_writer-Serves : Serves calendar full_writer two_views_ring
full_writer-Serves = record {
  represents = two_pools-Represents;
  described = (
    record {
      segment = first;
      points = record {
        before = [];
        after = [];
        segments_are = refl;
        pool_id_is = refl;
        offset_is = refl;
        size_is = refl;
      };
      in_range = omega arith;
      same_camera = refl;
      same_start = refl;
      same_end = refl;
    },
    tt,
  );
  valid = record {
    ordered = (tt, tt);
    distinct = (tt, tt);
    filed =
        (record { same_camera = refl; same_start = refl; same_id = refl; given = omega arith }, tt);
  };
}

-- A segment for which pool 0 has no room left.
abbrev pub long : Segment
long = segment cam2 7 (replicate 150 9)

pub long-IsStorable : IsStorable calendar long
long-IsStorable = omega arith

append-Represents_example :
    Stores calendar two_pools
      (ring_append 2 200 two_views_ring long)
      long
      (append calendar never 0 long two_pools)
append-Represents_example =
    append-Represents calendar never 0 two_pools two_views_ring long two_pools-Represents
      long-IsStorable (omega arith)

write_step-Serves_example :
    Steps calendar full_writer long
      (ring_append 2 200 two_views_ring long)
      (write_step calendar never 0 full_writer long)
write_step-Serves_example =
    write_step-Serves calendar never 0 full_writer two_views_ring long full_writer-Serves
      long-IsStorable (omega arith)

writer_loop-Serves_example :
    Runs calendar full_writer
      (ring_run 2 200 two_views_ring (second ∷ long ∷ []))
      (writer_loop calendar (λ k. never) (λ k. 0) 0 full_writer (second ∷ long ∷ []))
writer_loop-Serves_example =
    writer_loop-Serves calendar (λ k. never) (λ k. 0) 0 full_writer two_views_ring
      (second ∷ long ∷ []) full_writer-Serves (second-IsStorable, (long-IsStorable, tt))
      (omega arith)
