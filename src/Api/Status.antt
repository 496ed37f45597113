-- ===== src/Api/Status.antt =====
-- `handle_login`, `handle_status` and `handle_list` of src/api.rs.
use oasis_nvr.Prelude.{
  ℕ, ◌+◌, ◌-◌, ◌%◌, ◌^◌, [], ◌∷◌, ◌&&◌, Option, none, some, List, map, ltb, bytes_eq, if◌then◌else◌,
  length,
}
use oasis_nvr.Utf8.{Text}
use oasis_nvr.Chrono.{Time}
use oasis_nvr.Outcome.{Result, ok, ◌>>=◌}
use oasis_nvr.Config.{CameraConfig}
use oasis_nvr.Storage.ChunkPool.Pool.{status}
use oasis_nvr.Storage.Index.{SegmentIndex, SegmentMeta, segments_for_camera, len}
use oasis_nvr.Api.{
  AppState, ListParams, LoginParams, unauthorized_401, json, invalid_credentials, Reply, answer,
  refuse,
}

-- "oasis_logged_in"
abbrev pub token : Text
token = 111 ∷ 97 ∷ 115 ∷ 105 ∷ 115 ∷ 95 ∷ 108 ∷ 111 ∷ 103 ∷ 103 ∷ 101 ∷ 100 ∷ 95 ∷ 105 ∷ 110 ∷ []

unfoldable pub handle_login : AppState → LoginParams → Reply Text
handle_login state params =
    if bytes_eq params.username state.config.api.username
      && bytes_eq params.password state.config.api.password
    then answer json token
    else refuse unauthorized_401 json invalid_credentials

pub record CameraStatus : Type 0 where
  pub id : Text
  pub name : Text
  pub segments : ℕ

-- A percentage is kept as the quotient of which it is a hundred times the value; `none` is 0.
pub record StatusResponse : Type 0 where
  pub pool_files : ℕ
  pub pool_size_mb : ℕ
  pub active_pool_idx : ℕ
  pub active_pool_pct : Option (ℕ × ℕ)
  pub total_segments : ℕ
  pub cameras : List CameraStatus

abbrev pub camera_status : SegmentIndex → CameraConfig → CameraStatus
camera_status index c = record {
  id = c.id;
  name = c.name;
  segments = length (segments_for_camera index c.id);
}

-- `ChunkPool::status` panics where the write index is out of range.
unfoldable pub handle_status : AppState → Result (Reply StatusResponse)
handle_status state = do
  (idx, used, cap) ← status state.store.pool
  ok (
      answer json (record {
        pool_files = state.config.storage.max_pools;
        pool_size_mb = state.config.storage.chunk_size_mb;
        active_pool_idx = idx;
        active_pool_pct = if ltb 0 cap then some (used, cap) else none;
        total_segments = len state.index;
        cameras = map (camera_status state.index) state.config.cameras;
      }))

pub record SegmentInfo : Type 0 where
  pub segment_id : ℕ
  pub camera_id : Text
  pub start : Text
  pub end_at : Text
  pub pool_idx : ℕ
  pub size_bytes : ℕ

pub record ListResponse : Type 0 where
  pub camera : Text
  pub segments : List SegmentInfo
  pub total : ℕ

-- `format` is chrono's, with the form of a date and a time.
unfoldable pub segment_info : (Time → Text) → SegmentMeta → SegmentInfo
segment_info format s = record {
  segment_id = s.segment_id;
  camera_id = s.camera_id;
  start = format s.start_ts;
  end_at = format s.end_ts;
  pool_idx = s.location.pool_idx;
  size_bytes = (s.location.record_size + 2 ^ 64 - 40) % 2 ^ 64;
}

unfoldable pub handle_list : (Time → Text) → AppState → ListParams → Reply ListResponse
handle_list format state params =
    let seg_infos = map (segment_info format) (segments_for_camera state.index params.camera) in
    answer json (record { camera = params.camera; segments = seg_infos; total = length seg_infos })
