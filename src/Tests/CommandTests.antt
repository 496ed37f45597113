-- ===== src/Tests/CommandTests.antt =====
-- The theorems on export, the commands, the start and the ingestion at concrete inputs.
use oasis_nvr.Prelude.{
  ℕ, suc, ◌*◌, ◌≡◌, ◌≢◌, refl, true, false, none, some, List, [], ◌∷◌, ◌++◌, arith, All, le_bytes,
  from_le_bytes, bytes_eq, ltb,
}
use oasis_nvr.Outcome.{io, ok, err, ◌>>=◌}
use oasis_nvr.Config.{pool_bytes}
use oasis_nvr.Manager.{start_workers}
use oasis_nvr.Storage.ChunkPool.Readers
use oasis_nvr.Storage.ChunkPool.Pool.Read.{read_segment_data-Holds}
use oasis_nvr.Storage.ChunkPool.Record.{
  encode_record, cam_bytes, read_exact, scan_records, scan_from, scan_round,
}
use oasis_nvr.Storage.ChunkPool.Files.{Disk, Store}
use oasis_nvr.Storage.ChunkPool.Pool.{pool_header, read_segment_data}
use oasis_nvr.Storage.ChunkPool.Open.{open_pool, open_loop, open_slot, read_pool_header}
use oasis_nvr.Storage.Index
use oasis_nvr.Storage.Index.{
  SegmentMeta, SegmentIndex, all_segments, segments_for_camera, segments_in_range, find_segment,
}
use oasis_nvr.Camera.{SegmentReady}
use oasis_nvr.Api.{AppState}
use oasis_nvr.Api.Export.{export_reply, handle_export}
use oasis_nvr.Api.Export.Guards.{HasRoom, handle_export-opened}
use oasis_nvr.Playback.{Surroundings, export_range}
use oasis_nvr.Playback.Exporting.{Reads, export_range-leaves}
use oasis_nvr.Main.Start.{Directories, Started, no_workers}
use oasis_nvr.Ingestion.{CameraWorker, Spool, run}
use oasis_nvr.Ingestion.Forwarding.{requests, run-requests}
use oasis_nvr.Playback.Remux.{eos, other_message}
use oasis_nvr.Playback.Remux.Exports.{Remuxer, remux_with, Ends, export_range-Ends}
use oasis_nvr.Tests.Fixtures.{calendar, cam1}
use oasis_nvr.Tests.StorageTests.{two_pools-Holds, first, second, two_pools, no_clock}
use oasis_nvr.Tests.WriterTests.{two_views_ring, first_index, full_writer, full_writer-Serves}
use oasis_nvr.Tests.ApiTests.{camera, small, state, first_meta}

abbrev calm : Surroundings
calm = record {
  gst_init = true;
  make_dir = true;
  stage = λ k. true;
  remove_dir = true;
  remux = λ files. (ok tt, some []);
}

listed : segments_in_range first_index cam1 0 (10 * 1000000000) ≡ first_meta ∷ []
unfolding segments_in_range bytes_eq
listed = refl

-- A remuxer that always comes to the end, and the surroundings with it.
abbrev remuxer : Remuxer
remuxer = record {
  works = λ c. true;
  popped = eos;
  seg_path = λ i. i ∷ [];
  output_path = [];
  mux = λ files. 7 ∷ [];
  unfinished = λ files. some [];
}

abbrev remuxing : Surroundings
remuxing = record calm { remux = remux_with remuxer }

no_other : eos ≢ other_message
no_other e = ground arith

export_range-Ends_example :
    (files : List (List ℕ)) × Reads two_pools (first_meta ∷ []) files
    × Ends remuxer files 1 (export_range remuxing two_pools first_index cam1 0 (10 * 1000000000))
export_range-Ends_example =
    export_range-Ends calendar remuxer remuxing full_writer two_views_ring cam1 0 (10 * 1000000000)
      first_meta [] full_writer-Serves listed refl refl (λ k. refl) refl refl no_other

-- An index whose second segment lies behind the end of the file.
abbrev lost_meta : SegmentMeta
lost_meta = record first_meta {
  segment_id = 1;
  location = record { pool_idx = 0; pool_id = 0; record_offset = 1000; record_size = 43 };
}

abbrev lost_index : SegmentIndex
lost_index = record {
  entries =
      (record { camera_id = cam1; start_ts = first.start_ts; segment_id = 0 }, first_meta)
      ∷ (record { camera_id = cam1; start_ts = first.start_ts; segment_id = 1 }, lost_meta)
      ∷ [];
  segment_counter = 2;
}

lost_listed : segments_in_range lost_index cam1 0 (10 * 1000000000) ≡ first_meta ∷ lost_meta ∷ []
unfolding segments_in_range bytes_eq
lost_listed = refl

first_reads : read_segment_data first_meta.location two_pools ≡ (ok (1 ∷ 2 ∷ 3 ∷ []), two_pools)
first_reads = read_segment_data-Holds calendar two_pools 0 0 [] [] first two_pools-Holds

lost_reads : read_segment_data lost_meta.location two_pools ≡ (err io, two_pools)
unfolding read_segment_data read_exact encode_record cam_bytes le_bytes
lost_reads = refl

export_range-leaves_example :
    export_range calm two_pools lost_index cam1 0 (10 * 1000000000)
    ≡ record { outcome = err io; output = none; left = some ((1 ∷ 2 ∷ 3 ∷ []) ∷ []) }
export_range-leaves_example =
    export_range-leaves calm two_pools lost_index cam1 0 (10 * 1000000000) (first_meta ∷ [])
      lost_meta [] ((1 ∷ 2 ∷ 3 ∷ []) ∷ []) io lost_listed (first_reads, tt) lost_reads refl refl
      (λ k. refl)

-- Pool files that are there, with nothing in them.
abbrev empty_files : Disk
empty_files i = some (pool_header calendar 0 0)

abbrev empty_store : Store
empty_store = record {
  pool = record {
    pool_capacity = 0;
    slots = record { pool_id = 0; bytes_used = 0 } ∷ [];
    write_idx = 0;
  };
  disk = empty_files;
}

opens : open_pool calendar no_clock (pool_bytes small.storage) 0 empty_files 1 ≡ ok empty_store
unfolding open_pool open_loop open_slot read_pool_header read_exact pool_header le_bytes
    from_le_bytes bytes_eq scan_records scan_from scan_round
opens = refl

abbrev empty_state : AppState
empty_state = record state { store = empty_store; index = Index.new }

no_guards :
    All
      (λ m. HasRoom empty_state.read_counters m.location.pool_idx)
      (segments_in_range Index.new cam1 0 0)
unfolding segments_in_range
no_guards = tt

handle_export-opened_example :
    handle_export
      (λ t. some 0)
      calendar
      no_clock
      0
      calm
      empty_state
      (record { camera = cam1; from = []; to = [] })
    ≡ (export_reply (export_range calm empty_store Index.new cam1 0 0) >>= λ reply.
        ok (reply, empty_state))
handle_export-opened_example =
    handle_export-opened (λ t. some 0) calendar no_clock 0 calm empty_state
      (record { camera = cam1; from = []; to = [] }) 0 0 empty_store refl refl opens no_guards

abbrev dirs : Directories
dirs = record {
  make_base = true;
  tmp_exists = false;
  clear_tmp = true;
  make_tmp = true;
  channel = λ n. ltb 0 n;
}

abbrev begun : Started
begun = record {
  manager = start_workers no_workers (camera cam1 ∷ []);
  store = empty_store;
  read_counters = record { counters = 0 ∷ [] };
  index = Index.new;
}

abbrev worker : CameraWorker
worker = record { camera_id = cam1 }

abbrev ready : ℕ → SegmentReady
ready n = record { path = n; start_ts = n; end_ts = suc n }

abbrev spool : Spool
spool = record { files = λ n. some (n ∷ []); queue = second ∷ [] }

run-requests_example :
    (run worker
      (record { removable = λ n. false; receiving = true })
      (some (ready 0 ∷ ready 1 ∷ []))
      spool).queue
    ≡ (second ∷ []) ++ requests worker (ready 0 ∷ ready 1 ∷ []) ((0 ∷ []) ∷ (1 ∷ []) ∷ [])
run-requests_example =
    run-requests worker (record { removable = λ n. false; receiving = true })
      (ready 0 ∷ ready 1 ∷ []) ((0 ∷ []) ∷ (1 ∷ []) ∷ []) spool refl
      (((λ e. ground arith), tt), (tt, tt)) (refl, (refl, tt))
