-- ===== src/Api/Media.antt =====
-- `handle_hls_live`, `handle_hls_vod`, `handle_hls_segment` and `handle_dash_manifest` of
-- src/api.rs.
pub mod Serving
pub mod Retained
pub mod Polling
pub mod Concurrent
use mathlib.Core.Option.{get_or}
use oasis_nvr.Prelude.{
  ℕ, zero, suc, ◌+◌, Bool, Option, none, some, List, [], ◌∷◌, leb, ◌==◌, if◌then◌else◌,
}
use oasis_nvr.Utf8.{Text}
use oasis_nvr.Chrono.{Time}
use oasis_nvr.Outcome.{Result, ok, err, panic, ◌>>=◌}
use oasis_nvr.Storage.ChunkPool.Readers.{PoolReadCounters, acquire, drop_guard}
use oasis_nvr.Storage.ChunkPool.Files.{Store}
use oasis_nvr.Storage.ChunkPool.Pool.{read_segment_data}
use oasis_nvr.Storage.Index.{SegmentIndex, segments_for_camera, find_segment}
use oasis_nvr.Hls
use oasis_nvr.Hls.{generate_live_playlist, generate_vod_playlist}
use oasis_nvr.Dash
use oasis_nvr.Dash.{generate_live_mpd, generate_vod_mpd}
use oasis_nvr.Api.{
  AppState, VodParams, DashParams, bad_request_400, not_found_404, internal_server_error_500,
  plain_text, mpegurl, dash_xml, mp4, invalid_from, invalid_to, segment_not_found,
  no_segments_found, failed, Reply, answer, refuse, Parse,
}
use oasis_nvr.Api.Query.{block_msn}

-- What a blocking reload meets: the index when it is read the k-th time, the index when it is read
-- once more after that, and the milliseconds since the start when the clock is read the k-th time.
pub record Polls : Type 0 where
  pub index : ℕ → SegmentIndex
  pub late : ℕ → SegmentIndex
  pub elapsed : ℕ → ℕ

-- The loop from poll `k` on, with fuel for some polls more.
unfoldable pub poll_live : Polls → Text → ℕ → ℕ → ℕ → ℕ → Option (List Hls.Line)
poll_live p camera secs msn zero k = none
poll_live p camera secs msn (suc fuel) k =
    let rest = poll_live p camera secs msn fuel (suc k) in
    elim (generate_live_playlist (p.index k) camera secs (some msn)) [
      | some playlist ↦ some playlist
      | none ↦
          if leb 30000 (p.elapsed k)
          then some (get_or (generate_live_playlist (p.late k) camera secs none) [])
          else rest
    ]

unfoldable pub handle_hls_live :
    ℕ → Polls → AppState → Text → Option Text → Option (Reply (List Hls.Line))
handle_hls_live fuel p state camera_id raw_query =
    let seg_dur = state.config.storage.segment_duration_secs in
    let playlist : Option (List Hls.Line) = elim (block_msn raw_query) [
      | some msn ↦ poll_live p camera_id seg_dur msn fuel 0
      | none ↦ some (get_or (generate_live_playlist (p.index 0) camera_id seg_dur none) [])
    ] in
    elim playlist [ none ↦ none | some lines ↦ some (answer mpegurl lines) ]

unfoldable pub handle_hls_vod : Parse → AppState → Text → VodParams → Reply (List Hls.Line)
handle_hls_vod parse state camera_id params = elim (parse params.from) [
  | none ↦ refuse bad_request_400 plain_text invalid_from
  | some from ↦ elim (parse params.to) [
    | none ↦ refuse bad_request_400 plain_text invalid_to
    | some to ↦
        elim (generate_vod_playlist state.index camera_id from to
          state.config.storage.segment_duration_secs) [
            | some playlist ↦ answer mpegurl playlist
            | none ↦ refuse not_found_404 plain_text (no_segments_found camera_id)
          ]
  ]
]

abbrev pub read_reply : Result (List ℕ) → Result (Reply (List ℕ))
read_reply (ok bytes) = ok (answer mp4 bytes)
read_reply (err e) = ok (refuse internal_server_error_500 plain_text (failed e))
read_reply panic = panic

-- The answer, and the read counters afterwards: the guard is dropped at the end.
unfoldable pub handle_hls_segment : AppState → Text → ℕ → Result (Reply (List ℕ) × PoolReadCounters)
handle_hls_segment state camera_id segment_id =
    elim (find_segment segment_id (segments_for_camera state.index camera_id)) [
      | none ↦ ok (refuse not_found_404 plain_text segment_not_found, state.read_counters)
      | some seg ↦ do
        (counters, guard) ← acquire state.read_counters seg.location.pool_idx
        reply ← read_reply (read_segment_data seg.location state.store).0
        after ← drop_guard counters guard
        ok (reply, after)
    ]

abbrev mpd_reply : Text → Option (List Dash.Line) → Reply (List Dash.Line)
mpd_reply camera_id (some lines) = answer dash_xml lines
mpd_reply camera_id none = refuse not_found_404 plain_text (no_segments_found camera_id)

unfoldable pub handle_dash_manifest : Parse → AppState → Text → DashParams → Reply (List Dash.Line)
handle_dash_manifest parse state camera_id params =
    let seg_dur = state.config.storage.segment_duration_secs in
    let live = mpd_reply camera_id (generate_live_mpd state.index camera_id seg_dur) in
    elim params.from [
      | none ↦ live
      | some from_text ↦ elim params.to [
        | none ↦ live
        | some to_text ↦ elim (parse from_text) [
          | none ↦ refuse bad_request_400 plain_text invalid_from
          | some from ↦ elim (parse to_text) [
            | none ↦ refuse bad_request_400 plain_text invalid_to
            | some to ↦ mpd_reply camera_id (generate_vod_mpd state.index camera_id from to seg_dur)
          ]
        ]
      ]
    ]
