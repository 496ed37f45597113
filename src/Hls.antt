-- ===== src/Hls.antt =====
-- src/hls.rs: the live and the VOD playlist. A playlist is the list of its lines, one constructor
-- for each form of line that is written. Durations are whole milliseconds: the source divides them
-- by 1000.0 and prints three digits, which gives the same digits for every duration below 2^53 ms.
pub mod Window
use oasis_nvr.Prelude.{
  ℕ, ◌+◌, ◌-◌, ◌*◌, ◌/◌, Bool, false, Option, none, some, List, [], ◌∷◌, ◌++◌, ltb, if◌then◌else◌,
  length, drop,
}
use oasis_nvr.Chrono.{Time}
use oasis_nvr.Utf8.{Text}
use oasis_nvr.Storage.Index.{SegmentIndex, SegmentMeta, segments_for_camera, segments_in_range}

pub data Line : Type 0 where
  extm3u : Line
  version : ℕ → Line
  target_duration : ℕ → Line
  media_sequence : ℕ → Line
  server_control : ℕ → Line
  playlist_type_vod : Line
  start_offset : ℕ → Line
  discontinuity : Line
  program_date_time : Time → Line
  extinf : ℕ → Line
  segment_uri : ℕ → Line
  endlist : Line

abbrev pub live_window_segments : ℕ
live_window_segments = 10

-- `(a - b).num_milliseconds()`, or 0 where it is negative, which the callers do not tell apart.
abbrev pub millis_between : Time → Time → ℕ
millis_between a b = (a - b) / 1000000

-- In milliseconds; the fallback where the timestamps do not give a positive duration.
unfoldable pub segment_actual_duration : SegmentMeta → ℕ → ℕ
segment_actual_duration seg fallback_secs =
    let d = millis_between seg.end_ts seg.start_ts in if ltb 0 d then d else fallback_secs * 1000

unfoldable pub empty_live_playlist : ℕ → List Line
empty_live_playlist secs = extm3u ∷ version 7 ∷ target_duration secs ∷ media_sequence 0 ∷ []

-- `prev_end_ts` and a gap of more than 1500 ms before this segment.
unfoldable pub gap_line : Option Time → Time → List Line
gap_line none start = []
gap_line (some prev_end) start =
    if ltb 1500 (millis_between start prev_end) then discontinuity ∷ [] else []

-- The loop over the segments, which both playlists have.
unfoldable pub segment_lines : ℕ → Option Time → List SegmentMeta → List Line
unfolding gap_line segment_actual_duration
segment_lines secs prev [] = []
segment_lines secs prev (seg ∷ segs) =
    gap_line prev seg.start_ts
    ++ (program_date_time seg.start_ts
        ∷ extinf (segment_actual_duration seg secs)
        ∷ segment_uri seg.segment_id
        ∷ segment_lines secs (some seg.end_ts) segs)

abbrev pub first_id : List SegmentMeta → ℕ
first_id [] = 0
first_id (s ∷ ss) = s.segment_id

abbrev pub max_id : List SegmentMeta → ℕ
max_id [] = 0
max_id (s ∷ ss) = if ltb (max_id ss) s.segment_id then s.segment_id else max_id ss

-- The last segments, at most ten.
abbrev pub live_window : List SegmentMeta → List SegmentMeta
live_window segs = drop (length segs - live_window_segments) segs

abbrev pub must_wait : Option ℕ → List SegmentMeta → Bool
must_wait none segs = false
must_wait (some msn) segs = ltb (max_id segs) msn

-- The playlist of a camera that has segments.
unfoldable pub live_lines : ℕ → List SegmentMeta → List Line
live_lines secs window =
    extm3u
    ∷ version 7
    ∷ target_duration secs
    ∷ media_sequence (first_id window)
    ∷ server_control secs
    ∷ segment_lines secs none window

abbrev live_of : ℕ → Option ℕ → List SegmentMeta → Option (List Line)
live_of secs block_msn [] = some (empty_live_playlist secs)
live_of secs block_msn (s ∷ ss) =
    if must_wait block_msn (s ∷ ss) then none else some (live_lines secs (live_window (s ∷ ss)))

unfoldable pub generate_live_playlist : SegmentIndex → Text → ℕ → Option ℕ → Option (List Line)
generate_live_playlist index camera_id secs block_msn =
    live_of secs block_msn (segments_for_camera index camera_id)

abbrev pub max_duration : ℕ → List SegmentMeta → ℕ
max_duration secs [] = 0
max_duration secs (s ∷ ss) =
    let d = segment_actual_duration s secs in
    let m = max_duration secs ss in if ltb m d then d else m

-- `EXT-X-START`, where the range starts more than 0.1 s after the first segment.
abbrev start_line : Time → SegmentMeta → List Line
start_line from seg =
    let offset = millis_between from seg.start_ts in
    if ltb 100 offset then start_offset offset ∷ [] else []

abbrev vod_of : Time → ℕ → List SegmentMeta → Option (List Line)
vod_of from secs [] = none
vod_of from secs (s ∷ ss) = some (
    extm3u
    ∷ version 7
    ∷ target_duration ((max_duration secs (s ∷ ss) + 999) / 1000)
    ∷ media_sequence (first_id (s ∷ ss))
    ∷ playlist_type_vod
    ∷ (start_line from s ++ (discontinuity ∷ (segment_lines secs none (s ∷ ss) ++ (endlist ∷ [])))))

unfoldable pub generate_vod_playlist : SegmentIndex → Text → Time → Time → ℕ → Option (List Line)
generate_vod_playlist index camera_id from to secs =
    vod_of from secs (segments_in_range index camera_id from to)
