-- ===== src/Dash.antt =====
-- src/dash.rs: the live and the VOD manifest. A manifest is the list of its lines, one constructor
-- for each form of line that is written; durations are whole milliseconds, as in `Hls`.
use oasis_nvr.Prelude.{
  ℕ, ◌+◌, ◌-◌, Bool, true, false, Option, none, some, List, [], ◌∷◌, ◌++◌, if◌then◌else◌, length,
  drop,
}
use oasis_nvr.Chrono.{Time}
use oasis_nvr.Utf8.{Text}
use oasis_nvr.Storage.Index.{SegmentIndex, SegmentMeta, segments_for_camera, segments_in_range}
-- The duration of a segment is computed by the same text in src/hls.rs and in src/dash.rs.
use oasis_nvr.Hls.{segment_actual_duration, first_id}

pub data Line : Type 0 where
  xml : Line
  -- is it live, `availabilityStartTime`, `minBufferTime`, `mediaPresentationDuration`
  mpd : Bool → Option Time → ℕ → Option ℕ → Line
  period : Line
  empty_period : Line
  adaptation_set : Line
  representation : Text → Line
  segment_template : ℕ → Line
  segment_timeline : Line
  entry : Time → ℕ → Line
  end_segment_timeline end_segment_template end_representation end_adaptation_set : Line
  end_period end_mpd : Line

abbrev pub live_window_segments : ℕ
live_window_segments = 10

abbrev pub first_start : List SegmentMeta → Option Time
first_start [] = none
first_start (s ∷ ss) = some s.start_ts

abbrev pub total_duration : ℕ → List SegmentMeta → ℕ
total_duration secs [] = 0
total_duration secs (s ∷ ss) = segment_actual_duration s secs + total_duration secs ss

-- The loop over the segments.
unfoldable pub timeline : ℕ → List SegmentMeta → List Line
timeline secs [] = []
timeline secs (s ∷ ss) = entry s.start_ts (segment_actual_duration s secs) ∷ timeline secs ss

abbrev pub closing : List Line
closing =
    end_segment_timeline ∷ end_segment_template ∷ end_representation ∷ end_adaptation_set
    ∷ end_period ∷ end_mpd ∷ []

unfoldable pub render_mpd : List SegmentMeta → ℕ → Bool → Text → List Line
unfolding timeline
render_mpd segs secs is_live camera_id =
    xml
    ∷ mpd is_live (first_start segs) secs
        (if is_live then none else some (total_duration secs segs))
    ∷ period
    ∷ adaptation_set
    ∷ representation camera_id
    ∷ segment_template (first_id segs)
    ∷ segment_timeline
    ∷ (timeline secs segs ++ closing)

unfoldable pub empty_mpd : ℕ → Bool → List Line
empty_mpd secs is_live = xml ∷ mpd is_live none secs none ∷ empty_period ∷ end_mpd ∷ []

abbrev live_of : ℕ → Text → List SegmentMeta → List Line
live_of secs camera_id [] = empty_mpd secs true
live_of secs camera_id (s ∷ ss) =
    render_mpd (drop (length (s ∷ ss) - live_window_segments) (s ∷ ss)) secs true camera_id

unfoldable pub generate_live_mpd : SegmentIndex → Text → ℕ → Option (List Line)
generate_live_mpd index camera_id secs =
    some (live_of secs camera_id (segments_for_camera index camera_id))

abbrev vod_of : ℕ → Text → List SegmentMeta → Option (List Line)
vod_of secs camera_id [] = none
vod_of secs camera_id (s ∷ ss) = some (render_mpd (s ∷ ss) secs false camera_id)

unfoldable pub generate_vod_mpd : SegmentIndex → Text → Time → Time → ℕ → Option (List Line)
generate_vod_mpd index camera_id from to secs =
    vod_of secs camera_id (segments_in_range index camera_id from to)
