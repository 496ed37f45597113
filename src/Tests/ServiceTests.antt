-- ===== src/Tests/ServiceTests.antt =====
-- The theorems on configuration, manager and manifests at concrete inputs.
use oasis_nvr.Prelude.{
  ℕ, ◌+◌, ◌-◌, ◌≤◌, ◌≡◌, refl, false, Bool, some, List, [], ◌∷◌, ◌++◌, arith, bytes_eq, length,
  take, map,
}
use oasis_nvr.Utf8.{Text}
use oasis_nvr.Config.{Config, CameraConfig, default_api}
use oasis_nvr.Manager.{RecordingManager, spawn}
use oasis_nvr.Storage.Index.{SegmentIndex, SegmentMeta, segments_for_camera}
use oasis_nvr.Hls
use oasis_nvr.Hls.{generate_live_playlist, live_window}
use oasis_nvr.Hls.Window.{uris, generate_live_playlist-window}
use oasis_nvr.Tests.Fixtures.{cam1}
use oasis_nvr.Camera.{supervised_connect}
use oasis_nvr.Camera.Backoff.{Attempts, supervised_connect-Attempts}

abbrev camera : Text → CameraConfig
camera id = record { id = id; name = id; url = []; max_reconnect_attempts = 0 }

abbrev plain : Config
plain = record {
  storage = record {
    base_path = [];
    chunk_size_mb = 512;
    max_pools = 20;
    segment_duration_secs = 60;
    writer_queue_size = 256;
  };
  cameras = camera cam1 ∷ [];
  api = default_api;
}

abbrev one_worker : RecordingManager
one_worker = record {
  workers = (cam1, record { config = camera cam1; handle = 0 }) ∷ [];
  next = 1;
  calls = spawn 0 (camera cam1) ∷ [];
}

abbrev seg : ℕ → ℕ → SegmentMeta
seg id start = record {
  segment_id = id;
  camera_id = cam1;
  start_ts = start;
  end_ts = start + 1;
  location = record { pool_idx = 0; pool_id = 0; record_offset = 64; record_size = 50 };
}

abbrev indexed : SegmentIndex
indexed = record {
  entries =
      (record { camera_id = cam1; start_ts = 1; segment_id = 3 }, seg 3 1)
      ∷ (record { camera_id = cam1; start_ts = 2; segment_id = 5 }, seg 5 2)
      ∷ [];
  segment_counter = 6;
}

generate_live_playlist-window_example :
    let segs = segments_for_camera indexed cam1 in
    (ls : List Hls.Line) × (generate_live_playlist indexed cam1 60 (some 5) ≡ some ls)
    × (uris ls ≡ map (λ s. s.segment_id) (live_window segs))
    × (length (live_window segs) ≤ 10)
    × (take (length segs - 10) segs ++ live_window segs ≡ segs)
unfolding segments_for_camera bytes_eq
generate_live_playlist-window_example =
    generate_live_playlist-window indexed cam1 60 (some 5) (λ e. ground arith) refl

abbrev never : ℕ → Bool
never k = false

supervised_connect-Attempts_example :
    Attempts never 3 0
      (supervised_connect (record (camera cam1) { max_reconnect_attempts = 3 }) never)
supervised_connect-Attempts_example =
    supervised_connect-Attempts (record (camera cam1) { max_reconnect_attempts = 3 }) never
