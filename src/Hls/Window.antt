-- ===== src/Hls/Window.antt =====
-- Which segments a live playlist offers.
use oasis_nvr.Prelude.{
  ℕ, ◌-◌, ◌≤◌, ◌<◌, ◌≡◌, ◌≢◌, refl, ap, false, Option, none, some, List, [], ◌∷◌, ◌++◌, arith,
  length, length-drop, take, map, take-append-drop,
}
use oasis_nvr.Chrono.{Time}
use oasis_nvr.Utf8.{Text}
use oasis_nvr.Storage.Index.{SegmentIndex, SegmentMeta, segments_for_camera}
use oasis_nvr.Hls.{
  Line, extm3u, version, target_duration, media_sequence, server_control, playlist_type_vod,
  start_offset, discontinuity, program_date_time, extinf, segment_uri, endlist, gap_line,
  segment_lines, live_window, live_lines, generate_live_playlist, max_id, must_wait, live_of,
}

-- The segments that a playlist's lines name, in order.
abbrev pub uris : List Line → List ℕ
uris [] = []
uris (segment_uri n ∷ ls) = n ∷ uris ls
uris (extm3u ∷ ls) = uris ls
uris (version n ∷ ls) = uris ls
uris (target_duration n ∷ ls) = uris ls
uris (media_sequence n ∷ ls) = uris ls
uris (server_control n ∷ ls) = uris ls
uris (playlist_type_vod ∷ ls) = uris ls
uris (start_offset n ∷ ls) = uris ls
uris (discontinuity ∷ ls) = uris ls
uris (program_date_time t ∷ ls) = uris ls
uris (extinf n ∷ ls) = uris ls
uris (endlist ∷ ls) = uris ls

uris-gap_line :
    (prev : Option Time) (t : Time) (ls : List Line) → uris (gap_line prev t ++ ls) ≡ uris ls
unfolding gap_line
uris-gap_line none t ls = refl
uris-gap_line (some p) t ls = ground arith

uris-segment_lines :
    (secs : ℕ) (prev : Option Time) (segs : List SegmentMeta)
    → uris (segment_lines secs prev segs) ≡ map (λ s. s.segment_id) segs
unfolding segment_lines
uris-segment_lines secs prev [] = refl
uris-segment_lines secs prev (s ∷ ss) =
    rw (uris-gap_line prev s.start_ts)
      (ap (◌∷◌ s.segment_id) (uris-segment_lines secs (some s.end_ts) ss))

-- Where a camera has segments and the request does not have to wait, the live playlist names the
-- last of them in the order of the index: all but a first part, and no more than ten.
pub generate_live_playlist-window :
    (index : SegmentIndex) (camera_id : Text) (secs : ℕ) (block_msn : Option ℕ)
    → segments_for_camera index camera_id ≢ []
    → must_wait block_msn (segments_for_camera index camera_id) ≡ false
    → let segs = segments_for_camera index camera_id in
      (ls : List Line) × (generate_live_playlist index camera_id secs block_msn ≡ some ls)
      × (uris ls ≡ map (λ s. s.segment_id) (live_window segs))
      × (length (live_window segs) ≤ 10)
      × (take (length segs - 10) segs ++ live_window segs ≡ segs)
unfolding generate_live_playlist
generate_live_playlist-window index camera_id secs block_msn some_segs no_wait =
    window (segments_for_camera index camera_id) some_segs no_wait
  where
    window :
        (segs : List SegmentMeta)
        → segs ≢ []
        → must_wait block_msn segs ≡ false
        → (ls : List Line) × (live_of secs block_msn segs ≡ some ls)
          × (uris ls ≡ map (λ s. s.segment_id) (live_window segs))
          × (length (live_window segs) ≤ 10)
          × (take (length segs - 10) segs ++ live_window segs ≡ segs)
    window [] h k = absurd (h refl)
    window (s ∷ ss) h k = (
      live_lines secs (live_window (s ∷ ss)),
      rw k,
      uris_live (live_window (s ∷ ss)),
      omega (arith, length-drop (length (s ∷ ss) - 10) (s ∷ ss)),
      take-append-drop (length (s ∷ ss) - 10) (s ∷ ss),
    )
      where
        uris_live : (w : List SegmentMeta) → uris (live_lines secs w) ≡ map (λ s. s.segment_id) w
        uris_live w = unfold live_lines in uris-segment_lines secs none w

-- A request for a segment that is still to come gets no playlist, as long as the camera has some
-- segment.
pub generate_live_playlist-waits :
    (index : SegmentIndex) (camera_id : Text) (secs msn : ℕ)
    → segments_for_camera index camera_id ≢ []
    → max_id (segments_for_camera index camera_id) < msn
    → generate_live_playlist index camera_id secs (some msn) ≡ none
unfolding generate_live_playlist
generate_live_playlist-waits index camera_id secs msn some_segs later = ground arith
