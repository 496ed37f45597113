-- ===== src/Tests/ConcurrentTests.antt =====
-- The theorems on the writer and a handler at the same time, at a concrete run.
use oasis_nvr.Prelude.{
  ℕ, zero, suc, ◌≡◌, ◌≤◌, ◌<◌, ◌++◌, ◌==◌, refl, true, false, bytes_eq, some, [], ◌∷◌, arith,
  if◌then◌else◌, replicate,
}
use oasis_nvr.Outcome.{ok}
use oasis_nvr.Storage.ChunkPool.Record.{Segment}
use oasis_nvr.Storage.ChunkPool.Record.RoundTrip.{IsStorable}
use oasis_nvr.Storage.ChunkPool.Record.Scan.{total_size, layout}
use oasis_nvr.Storage.ChunkPool.Files.{Store}
use oasis_nvr.Storage.ChunkPool.Pool.Append.{Holds}
use oasis_nvr.Storage.ChunkPool.Ring.{Ring}
use oasis_nvr.Api.{mp4, answer}
use oasis_nvr.Storage.ChunkPool.Types.{SegmentLocation}
use oasis_nvr.Storage.ChunkPool.Pool.{append, status, read_segment_data}
use oasis_nvr.Storage.Index.{evict_pool, segments_for_camera, find_segment}
use oasis_nvr.Storage.GlobalWriter.{WriterState, evict_next}
use oasis_nvr.Storage.GlobalWriter.Serves.{Serves}
use oasis_nvr.Api.Media.{read_reply}
use oasis_nvr.Api.Media.Concurrent.{
  idle, appending, inserting, asking, answered, ring_after, System, overtake, look_up, Reach, here,
  next, receive, store_segment, look, read,
}
use oasis_nvr.Api.Media.Concurrent.Answers.{AnswersRight, Reach-AnswersRight}
use oasis_nvr.Api.Media.Concurrent.Overtaken.{Reach-overtake}
use oasis_nvr.Tests.Fixtures.{calendar, cam1, cam2, segment}
use oasis_nvr.Tests.StorageTests.{first, first-IsStorable, two_pools, header64, never}
use oasis_nvr.Tests.WriterTests.{
  two_views_ring, first_index, full_writer, full_writer-Serves, long, long-IsStorable,
}

-- The segment is looked up, then the writer takes a request that needs pool 1, up to the append, and
-- then the handler reads from pool 0.
abbrev asked : System
asked = record { store = two_pools; index = first_index; phase = idle; reader = asking cam1 0 }

abbrev looked : System
looked = record asked { reader = look_up first_index cam1 0 }

abbrev received : System
received = record looked { index = evict_pool first_index 1; phase = appending long }

abbrev stored : System
stored = record {
  store = (append calendar never 0 long two_pools).1;
  index = received.index;
  phase = inserting long (append calendar never 0 long two_pools).0;
  reader = overtake two_pools.pool long received.reader;
}

abbrev first_location : SegmentLocation
first_location = record { pool_idx = 0; pool_id = 0; record_offset = 64; record_size = 43 }

abbrev finished : System
finished = record stored {
  reader = answered cam1 false (read_reply (read_segment_data first_location stored.store).0);
}

run : Reach calendar asked finished
unfolding status evict_next find_segment segments_for_camera bytes_eq
run =
    next
      (next
        (next (next here (look cam1 0 refl refl)) (receive long _ refl long-IsStorable refl refl))
        (store_segment long never 0 refl refl))
      (read cam1 0 _ false refl refl)

Reach-AnswersRight_example :
    Serves calendar
      (record { store = finished.store; index = finished.index })
      (ring_after run two_views_ring)
    × AnswersRight run two_views_ring
Reach-AnswersRight_example =
    Reach-AnswersRight calendar full_writer two_views_ring cam1 0 finished run full_writer-Serves

-- The writer stands in pool 1, which `long` fills; pool 0, which is next, holds `first`.
abbrev filled : Store
filled = record {
  pool = record {
    pool_capacity = 200;
    slots = record { pool_id = 0; bytes_used = 43 } ∷ record { pool_id = 1; bytes_used = 190 } ∷ [];
    write_idx = 1;
  };
  disk = λ i.
      if i == 0
      then some (header64 ++ layout calendar (first ∷ []) (replicate 157 0))
      else some (header64 ++ layout calendar (long ∷ []) (replicate 10 0));
}

abbrev filled_ring : Ring
filled_ring = record {
  current = 1;
  view = λ i.
      if i == 0
      then record { pool_id = 0; segments = first ∷ [] }
      else record { pool_id = 1; segments = long ∷ [] };
}

filled-Holds :
    (i : ℕ)
    → i < 2
    → Holds calendar filled i (filled_ring.view i).pool_id (filled_ring.view i).segments
filled-Holds zero h = record {
  header = header64;
  tail = replicate 157 0;
  slot = refl;
  file = refl;
  header_size = refl;
  storable = (first-IsStorable, tt);
  fits = omega arith;
}
filled-Holds (suc zero) h = record {
  header = header64;
  tail = replicate 10 0;
  slot = refl;
  file = refl;
  header_size = refl;
  storable = (long-IsStorable, tt);
  fits = omega arith;
}
filled-Holds (suc (suc i)) h = absurd (omega arith)

filled_within : (i : ℕ) → i < 2 → total_size (filled_ring.view i).segments ≤ 200
filled_within zero h = omega arith
filled_within (suc zero) h = omega arith
filled_within (suc (suc i)) h = absurd (omega arith)

abbrev filled_writer : WriterState
filled_writer = record { store = filled; index = first_index }

filled_writer-Serves : Serves calendar filled_writer filled_ring
filled_writer-Serves = record {
  represents = record {
    same_current = refl;
    in_range = omega arith;
    holds = filled-Holds;
    within = filled_within;
    bounded = omega arith;
  };
  described = (
    record {
      segment = first;
      points = record {
        before = [];
        after = [];
        segments_are = refl;
        pool_id_is = refl;
        offset_is = refl;
        size_is = refl;
      };
      in_range = omega arith;
      same_camera = refl;
      same_start = refl;
      same_end = refl;
    },
    tt,
  );
  valid = full_writer-Serves.valid;
}

-- Another segment whose record is as long as that of `first`.
abbrev alike : Segment
alike = segment cam2 8 (7 ∷ 8 ∷ 9 ∷ [])

alike-IsStorable : IsStorable calendar alike
alike-IsStorable = omega arith

Reach-overtake_example :
    (t : System) × Reach calendar
      (record { store = filled; index = first_index; phase = idle; reader = asking cam1 0 })
      t
    × (t.reader ≡ answered cam1 true (ok (answer mp4 (7 ∷ 8 ∷ 9 ∷ []))))
unfolding status find_segment segments_for_camera bytes_eq
Reach-overtake_example =
    Reach-overtake calendar filled_writer filled_ring cam1 0
      (record {
        segment_id = 0;
        camera_id = cam1;
        start_ts = first.start_ts;
        end_ts = first.end_ts;
        location = first_location;
      })
      alike never 0 filled_writer-Serves refl alike-IsStorable refl (omega arith) refl refl refl
