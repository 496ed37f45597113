-- ===== src/Tests/ApiTests.antt =====
-- The theorems on the handlers at concrete inputs.
use oasis_nvr.Prelude.{
  ℕ, ◌*◌, ◌≡◌, ◌<◌, ◌↔◌, refl, Bool, true, none, some, List, [], ◌∷◌, arith, length, ◌⊎◌, Ordered,
  bytes_eq,
}
use mathlib.Core.List.{Memᴰ}
use oasis_nvr.Utf8.{Text}
use oasis_nvr.Outcome.{config, no_cameras, ok, err}
use oasis_nvr.Config.{Config, CameraConfig, default_api, from_file}
use oasis_nvr.Manager.{RecordingManager}
use oasis_nvr.Storage.Index.{
  SegmentMeta, all_segments, segments_for_camera, segments_in_range, find_segment,
}
use oasis_nvr.Storage.Index.Ranges.{Overlaps, StartsBefore, segments_in_range-sorted}
use oasis_nvr.Storage.GlobalWriter.{WriterState, writer_loop}
use oasis_nvr.Storage.GlobalWriter.Serves.{Locates}
use oasis_nvr.Api.{
  AppState, not_found_404, plain_text, json, mpegurl, mp4, segment_not_found, answer, refuse,
}
use oasis_nvr.Api.Query.{block_msn, split, split_once, find_msn, msn_of, parse_u64, parse_digits}
use oasis_nvr.Api.Media.{Polls, poll_live, handle_hls_live, handle_hls_segment}
use oasis_nvr.Api.Media.Polling.{Polled, handle_hls_live-Polled}
use oasis_nvr.Storage.ChunkPool.Ring.{ring_append}
use oasis_nvr.Storage.ChunkPool.Ring.Retains.{advances}
use oasis_nvr.Api.Media.Retained.{writer_loop-retained}
use oasis_nvr.Api.Media.Serving.{Sees, serving, handle_hls_segment-Serves}
use oasis_nvr.Api.Cameras.{Listing, handle_list_cameras, handle_add_camera, handle_remove_camera}
use oasis_nvr.Api.Cameras.Listed.{ListsAll, handle_list_cameras-ListsAll}
use oasis_nvr.Api.Cameras.Sync.{
  InSync, Adds, Removes, handle_add_camera-Adds, handle_remove_camera-Removes,
}
use oasis_nvr.Api.Cameras.LastCamera.{handle_remove_camera-from_file}
use oasis_nvr.Tests.Fixtures.{calendar, cam1, cam2}
use oasis_nvr.Tests.StorageTests.{first, second, second-IsStorable, two_pools, never}
use oasis_nvr.Tests.WriterTests.{
  two_views_ring, first_index, full_writer, full_writer-Serves, long, long-IsStorable,
}

abbrev pub camera : Text → CameraConfig
camera id = record { id = id; name = id; url = []; max_reconnect_attempts = 0 }

-- One pool of no bytes behind its header, and one camera.
abbrev pub small : Config
small = record {
  storage = record {
    base_path = [];
    chunk_size_mb = 0;
    max_pools = 1;
    segment_duration_secs = 60;
    writer_queue_size = 256;
  };
  cameras = camera cam1 ∷ [];
  api = default_api;
}

abbrev one_worker : RecordingManager
one_worker = record {
  workers = (cam1, record { config = camera cam1; handle = 0 }) ∷ [];
  next = 1;
  calls = [];
}

abbrev pub state : AppState
state = record {
  index = first_index;
  config = small;
  saved = small;
  read_counters = record { counters = 0 ∷ 0 ∷ [] };
  manager = one_worker;
  store = two_pools;
}

state-Sees : Sees state full_writer
state-Sees = record {
  same_index = refl;
  same_store = refl;
  counted = refl;
  not_full = (omega arith, (omega arith, tt));
}

handle_hls_segment-Serves_example :
    ((find_segment 0 (segments_for_camera first_index cam1) ≡ none)
      × (handle_hls_segment state cam1 0
          ≡ ok (refuse not_found_404 plain_text segment_not_found, state.read_counters)))
    ⊎ ((m : SegmentMeta) × (find_segment 0 (segments_for_camera first_index cam1) ≡ some m)
        × (l : Locates two_views_ring 2 cam1 0 m) × (handle_hls_segment state cam1 0
            ≡ ok (answer mp4 l.segment.bytes, state.read_counters)))
handle_hls_segment-Serves_example =
    handle_hls_segment-Serves calendar full_writer two_views_ring state cam1 0 full_writer-Serves
      state-Sees

-- "_HLS_msn=5"
abbrev msn_query : Text
msn_query = 95 ∷ 72 ∷ 76 ∷ 83 ∷ 95 ∷ 109 ∷ 115 ∷ 110 ∷ 61 ∷ 53 ∷ []

asked : block_msn (some msn_query) ≡ some 5
unfolding block_msn split split_once find_msn msn_of parse_u64 parse_digits bytes_eq
asked = refl

abbrev idle : Polls
idle = record { index = λ k. first_index; late = λ k. first_index; elapsed = λ k. 200 * k }

handle_hls_live-Polled_example :
    (q : Polled idle cam1 60 5 0 (poll_live idle cam1 60 5 151 0)) × (handle_hls_live 151 idle state
        cam1
        (some msn_query)
      ≡ some (answer mpegurl q.playlist))
handle_hls_live-Polled_example =
    handle_hls_live-Polled idle state cam1 (some msn_query) 5 151 (λ j. omega arith) asked
      (omega arith)

state-InSync : InSync state
state-InSync = record { unique = (tt, tt); filed = (refl, tt); same = λ id. refl }

abbrev pub saves : Config → Bool
saves cfg = true

handle_add_camera-Adds_example :
    Adds state (camera cam2) (handle_add_camera saves state (camera cam2))
handle_add_camera-Adds_example = handle_add_camera-Adds saves state (camera cam2) state-InSync

handle_remove_camera-Removes_example : Removes state cam1 (handle_remove_camera saves state cam1)
handle_remove_camera-Removes_example = handle_remove_camera-Removes saves state cam1 state-InSync

handle_list_cameras-ListsAll_example :
    (list : List Listing) × (handle_list_cameras state
      ≡ answer json (record { cameras = list; total = length list }))
    × ListsAll state list
handle_list_cameras-ListsAll_example = handle_list_cameras-ListsAll state state-InSync

handle_remove_camera-from_file_example :
    from_file (λ t. some (handle_remove_camera saves state cam1).1.saved) (some [])
    ≡ err (config no_cameras)
handle_remove_camera-from_file_example =
    handle_remove_camera-from_file saves state (camera cam1)
      (λ t. some (handle_remove_camera saves state cam1).1.saved) [] state-InSync refl (λ cfg. refl)
      refl

abbrev pub first_meta : SegmentMeta
first_meta = record {
  segment_id = 0;
  camera_id = cam1;
  start_ts = first.start_ts;
  end_ts = first.end_ts;
  location = record { pool_idx = 0; pool_id = 0; record_offset = 64; record_size = 43 };
}

segments_in_range-sorted_example :
    (Memᴰ first_meta (segments_in_range first_index cam1 0 (10 * 1000000000))
      ↔ (Memᴰ first_meta (all_segments first_index) × Overlaps cam1 0 (10 * 1000000000) first_meta))
    × Ordered StartsBefore (segments_in_range first_index cam1 0 (10 * 1000000000))
segments_in_range-sorted_example =
    segments_in_range-sorted first_index cam1 0 (10 * 1000000000) first_meta
      full_writer-Serves.valid

-- The second request takes the other pool.
rounds : advances 2 200 (ring_append 2 200 two_views_ring second) (long ∷ []) < 2
unfolding ring_append
rounds = omega arith

writer_loop-retained_example :
    (v : WriterState) × (writer_loop calendar
        (λ k. never)
        (λ k. 0)
        0
        full_writer
        (second ∷ long ∷ [])
      ≡ ok v)
    × (id : ℕ) × (handle_hls_segment (serving state v) cam2 id
        ≡ ok (answer mp4 second.bytes, state.read_counters))
writer_loop-retained_example =
    writer_loop-retained calendar (λ k. never) (λ k. 0) 0 full_writer two_views_ring second
      (long ∷ []) state full_writer-Serves (second-IsStorable, (long-IsStorable, tt))
      (omega arith, (omega arith, tt)) (omega arith) rounds refl (omega arith, (omega arith, tt))
