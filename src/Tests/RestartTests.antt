-- ===== src/Tests/RestartTests.antt =====
-- The theorems on a restart at concrete inputs: the recorder stopped in pool 1 of two, and pool 0 has
-- a segment.
use oasis_nvr.Prelude.{
  ℕ, ◌≤◌, ◌≡◌, refl, true, false, some, [], ◌∷◌, ◌++◌, arith, ◌==◌, if◌then◌else◌, replicate, inl,
  ap, ltb, map, All,
}
use oasis_nvr.Outcome.{ok}
use oasis_nvr.Config.{Config, pool_bytes, validate, from_file}
use oasis_nvr.Storage.ChunkPool.Types.{PoolSlot}
use oasis_nvr.Storage.ChunkPool.Record.Scan.{layout}
use oasis_nvr.Storage.ChunkPool.Files.{Disk, Store}
use oasis_nvr.Storage.ChunkPool.Pool.{pool_header, status}
use oasis_nvr.Storage.ChunkPool.Open.{open_pool, scan_all_pools, sort_records}
use oasis_nvr.Storage.ChunkPool.Open.Restart.{Clean, open_pool-restores}
use oasis_nvr.Storage.Index.{SegmentIndex}
use oasis_nvr.Storage.GlobalWriter.{WriterState, start_index, writer_loop}
use oasis_nvr.Storage.GlobalWriter.Serves.{Serves}
use oasis_nvr.Storage.ChunkPool.Record.RoundTrip.{recovered}
use oasis_nvr.Storage.GlobalWriter.Restart.{scan_all_pools-reported}
use oasis_nvr.Storage.GlobalWriter.Restart.Kept.{as_kept}
use oasis_nvr.Storage.GlobalWriter.Restart.Serving.{kept_ring, restarted, start_index-Serves}
use oasis_nvr.Api.{mp4, answer}
use oasis_nvr.Api.Media.{handle_hls_segment}
use oasis_nvr.Api.Media.Serving.{serving}
use oasis_nvr.Main.{StatusReport, prints, crashes, or_default, run_status}
use oasis_nvr.Main.Commands.{ListsAsMany, run_status-run_list}
use oasis_nvr.Main.Start.{Directories, Started, new_manager, api_state, run_record}
use oasis_nvr.Main.Start.Queue.{run_record-zero_queue}
use oasis_nvr.Main.Restarted.{new_manager-handle_hls_segment}
use oasis_nvr.Tests.Fixtures.{calendar}
use oasis_nvr.Tests.StorageTests.{
  first, second, first-IsStorable, second-IsStorable, not_magic, no_clock,
}
use oasis_nvr.Tests.ApiTests.{small}

abbrev left_behind : Disk
left_behind i =
    if i == 0
    then some (pool_header calendar 0 0 ++ layout calendar (first ∷ []) (replicate 20 0))
    else some (pool_header calendar 3 0 ++ replicate 20 0)

abbrev left_ids : ℕ → ℕ
left_ids i = if i == 0 then 0 else 3

abbrev slot_0 : PoolSlot
slot_0 = record { pool_id = 0; bytes_used = 43 }

abbrev slot_1 : PoolSlot
slot_1 = record { pool_id = 3; bytes_used = 0 }

-- With pools of this size; the tests take 80 bytes and 1 MiB.
clean_0 : (size : ℕ) → 43 ≤ size → Clean calendar no_clock size left_behind 0 0 slot_0
clean_0 size le = record {
  created = 0;
  segments = first ∷ [];
  tail = replicate 20 0;
  slot_is = refl;
  file = refl;
  id_small = omega arith;
  storable = (first-IsStorable, tt);
  within = omega arith;
  ends = not_magic;
}

clean_1 : (size : ℕ) → Clean calendar no_clock size left_behind 1 3 slot_1
clean_1 size = record {
  created = 0;
  segments = [];
  tail = replicate 20 0;
  slot_is = refl;
  file = refl;
  id_small = omega arith;
  storable = tt;
  within = omega arith;
  ends = not_magic;
}

open_pool-restores_example :
    open_pool calendar no_clock 80 0 left_behind 2
    ≡ ok (record {
      pool = record { pool_capacity = 80; slots = slot_0 ∷ slot_1 ∷ []; write_idx = 1 };
      disk = left_behind;
    })
open_pool-restores_example =
    open_pool-restores calendar no_clock 80 0 left_behind left_ids slot_0 (slot_1 ∷ []) 1
      (omega arith) (clean_0 80 (omega arith), (clean_1 80, tt)) (omega arith) (λ k l. ground arith)
      (λ k l m. absurd (omega arith))

abbrev left_store : Store
left_store = record {
  pool = record { pool_capacity = 80; slots = slot_0 ∷ slot_1 ∷ []; write_idx = 1 };
  disk = left_behind;
}

start_index-Serves_example :
    (ix : SegmentIndex) × (start_index (scan_all_pools calendar no_clock left_store) ≡ ok ix)
    × Serves calendar (restarted left_store ix) (
        kept_ring calendar no_clock left_store left_ids
          (clean_0 80 (omega arith), (clean_1 80, tt)))
    × (ix.segment_counter ≡ 1)
unfolding clean_0 clean_1 oasis_nvr.Utf8.is_utf8
start_index-Serves_example =
    start_index-Serves calendar no_clock left_store left_ids
      (clean_0 80 (omega arith), (clean_1 80, tt)) (omega arith) ((refl, tt), (tt, tt))
      (omega arith) (omega arith)

abbrev directories : Directories
directories = record {
  make_base = true;
  tmp_exists = true;
  clear_tmp = true;
  make_tmp = true;
  channel = λ n. ltb 0 n;
}

abbrev two_of_1_mb : Config
two_of_1_mb = record small { storage = record small.storage { chunk_size_mb = 1; max_pools = 2 } }

-- Pool 0's segment is served after the restart and after one more request.
new_manager-handle_hls_segment_example :
    (started : Started) × (new_manager calendar no_clock 0 left_behind directories two_of_1_mb
      ≡ ok started)
    × (v : WriterState) × (writer_loop calendar
          (λ i k. false)
          (λ i. 0)
          0
          (restarted started.store started.index)
          (second ∷ [])
        ≡ ok v)
    × (id : ℕ) × (handle_hls_segment
          (serving (api_state two_of_1_mb started) v)
          (as_kept first).camera_id
          id
        ≡ ok (answer mp4 (1 ∷ 2 ∷ 3 ∷ []), started.read_counters))
unfolding clean_0 clean_1 oasis_nvr.Utf8.is_utf8
new_manager-handle_hls_segment_example =
    new_manager-handle_hls_segment calendar no_clock 0 left_behind directories two_of_1_mb left_ids
      slot_0 (slot_1 ∷ []) 1 refl refl refl refl refl (omega arith)
      (clean_0 1048576 (omega arith), (clean_1 1048576, tt)) (omega arith) (λ k l. ground arith)
      (λ k l m. absurd (omega arith)) ((refl, tt), (tt, tt)) 0 [] [] (as_kept first) (λ i k. false)
      (λ i. 0) 0 (second ∷ []) 1 (omega arith) refl (second-IsStorable, tt) (omega arith)
      (omega arith) (omega arith, inl (omega arith)) (omega arith)

-- What the scan finds there.
abbrev left_1_mb : Store
left_1_mb = record {
  pool = record { pool_capacity = 1048576; slots = slot_0 ∷ slot_1 ∷ []; write_idx = 1 };
  disk = left_behind;
}

opens : open_pool calendar no_clock (pool_bytes two_of_1_mb.storage) 0 left_behind 2 ≡ ok left_1_mb
opens =
    open_pool-restores calendar no_clock 1048576 0 left_behind left_ids slot_0 (slot_1 ∷ []) 1
      (omega arith) (clean_0 1048576 (omega arith), (clean_1 1048576, tt)) (omega arith)
      (λ k l. ground arith) (λ k l m. absurd (omega arith))

scans : or_default (scan_all_pools calendar no_clock left_1_mb) ≡ ok (recovered 0 0 64 first ∷ [])
unfolding clean_0 clean_1 sort_records
scans = ap or_default (
    scan_all_pools-reported calendar no_clock left_1_mb left_ids (omega arith)
      (clean_0 1048576 (omega arith), (clean_1 1048576, tt)))

run_status-run_list_example :
    (report : StatusReport) × (run_status calendar no_clock 0 left_behind (ok two_of_1_mb)
      ≡ prints report)
    × (report.segments ≡ 1)
    × (map (λ e. e.0) report.cameras ≡ two_of_1_mb.cameras)
    × All (ListsAsMany calendar no_clock 0 left_behind (ok two_of_1_mb)) report.cameras
unfolding status
run_status-run_list_example =
    run_status-run_list calendar no_clock 0 left_behind two_of_1_mb left_1_mb (1, 0, 1048576)
      (recovered 0 0 64 first ∷ []) opens refl scans (omega arith)

abbrev zero_queue : Config
zero_queue = record two_of_1_mb { storage = record two_of_1_mb.storage { writer_queue_size = 0 } }

run_record-zero_queue_example :
    (from_file (λ t. some zero_queue) (some []) ≡ ok zero_queue)
    × (run_record calendar no_clock 0 left_behind directories
          (from_file (λ t. some zero_queue) (some []))
        ≡ crashes)
unfolding validate
run_record-zero_queue_example =
    run_record-zero_queue calendar no_clock 0 left_behind directories (λ t. some zero_queue) []
      zero_queue left_1_mb refl refl refl refl refl refl refl opens
