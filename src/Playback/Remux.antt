-- ===== src/Playback/Remux.antt =====
-- `remux_segments` of src/playback.rs: the pipeline that an export builds, call by call, and the
-- signal `pad-added` of the demuxers, which inserts the parser. An element is named by its factory,
-- those of a segment by its number too.
pub mod Plan
pub mod Pads
pub mod Exports
use oasis_nvr.Prelude.{
  ℕ, zero, suc, Bool, not, Option, none, some, List, [], ◌∷◌, bytes_eq, if◌then◌else◌, take,
}
use oasis_nvr.Utf8.{Text}
use oasis_nvr.Outcome.{gstreamer, Result, ok, err, panic}
use oasis_nvr.Calls.{Calls, attempt, ◌>>◌}

pub data Parser : Type 0 where
  h264parse av1parse : Parser

pub data Element : Type 0 where
  concat mp4mux : Element
  filesink : Text → Element
  filesrc : ℕ → Text → Element
  qtdemux : ℕ → Element
  parser : Parser → Element

pub data Call : Type 0 where
  make add sync_state_with_parent : Element → Call
  link : Element → Element → Call
  -- the sink pad of `concat` for a segment, and the link from the video pad of its demuxer to it
  request_sink link_pad : ℕ → Call
  set_playing get_bus timed_pop set_null : Call

-- The message that ends the wait of 30 seconds; the filter asks for the first two kinds only.
pub data Popped : Type 0 where
  eos pipeline_error timed_out other_message : Popped

abbrev pub ended : Popped → Result (Unit {0})
ended eos = ok tt
ended pipeline_error = err gstreamer
ended timed_out = err gstreamer
ended other_message = panic

-- `unreachable!()` leaves the function before the pipeline is stopped.
abbrev pub wait : (Call → Bool) → Popped → Calls Call (Unit {0})
wait works other_message = (timed_pop ∷ [], panic)
wait works popped = (timed_pop ∷ set_null ∷ [], ended popped)

module _ (works : Call → Bool) where
  -- The loop over the segments, from number `i` on.
  unfoldable pub add_segments : ℕ → List Text → Calls Call (Unit {0}) → Calls Call (Unit {0})
  add_segments i [] rest = rest
  add_segments i (path ∷ paths) rest = do
    attempt works (make (filesrc i path))
    attempt works (make (qtdemux i))
    attempt works (add (filesrc i path))
    attempt works (add (qtdemux i))
    attempt works (link (filesrc i path) (qtdemux i))
    attempt works (request_sink i)
    add_segments (suc i) paths rest

  unfoldable pub remux_segments : Popped → List Text → Text → Calls Call (Unit {0})
  unfolding add_segments
  remux_segments popped paths output = do
    attempt works (make concat)
    attempt works (make mp4mux)
    attempt works (make (filesink output))
    attempt works (add concat)
    attempt works (add mp4mux)
    attempt works (add (filesink output))
    attempt works (link mp4mux (filesink output))
    add_segments 0 paths
    attempt works set_playing
    attempt works get_bus
    wait works popped

-- "video", "video/x-h264" and "video/x-av1"
abbrev pub video : Text
video = 118 ∷ 105 ∷ 100 ∷ 101 ∷ 111 ∷ []

abbrev pub video_x_h264 : Text
video_x_h264 = 118 ∷ 105 ∷ 100 ∷ 101 ∷ 111 ∷ 47 ∷ 120 ∷ 45 ∷ 104 ∷ 50 ∷ 54 ∷ 52 ∷ []

abbrev pub video_x_av1 : Text
video_x_av1 = 118 ∷ 105 ∷ 100 ∷ 101 ∷ 111 ∷ 47 ∷ 120 ∷ 45 ∷ 97 ∷ 118 ∷ 49 ∷ []

-- `match s.name()`
unfoldable pub parser_for : Text → Option Parser
parser_for name =
    if bytes_eq name video_x_h264
    then some h264parse
    else (if bytes_eq name video_x_av1 then some av1parse else none)

-- A pad that the demuxer of a segment adds: its name, and its caps with their first structure.
pub record Pad : Type 0 where
  pub segment : ℕ
  pub name : Text
  pub caps : Option (Option Text)

abbrev pub is_video : Pad → Bool
is_video pad = bytes_eq (take 5 pad.name) video

-- The parser of the guard, where the calls succeeded.
abbrev pub guard_of : Calls Call Parser → List Call × Option Parser
guard_of (cs, ok p) = (cs, some p)
guard_of (cs, err e) = (cs, none)
guard_of (cs, panic) = (cs, none)

module _ (works : Call → Bool) where
  unfoldable pub insert_parser : Parser → List Call × Option Parser
  insert_parser p = guard_of (do
    attempt works (make (parser p))
    attempt works (add (parser p))
    attempt works (sync_state_with_parent (parser p))
    attempt works (link concat (parser p))
    attempt works (link (parser p) mp4mux)
    ([], ok p))

  -- What follows the link of a video pad.
  unfoldable pub resolve_parser : Option Parser → Option (Option Text) → List Call × Option Parser
  unfolding insert_parser
  resolve_parser (some p) caps = ([], some p)
  resolve_parser none none = ([], none)
  resolve_parser none (some none) = ([], none)
  resolve_parser none (some (some name)) = elim (parser_for name) [
    | none ↦ ([], none)
    | some p ↦ insert_parser p
  ]

  -- The signal `pad-added`: its calls, and the parser afterwards.
  unfoldable pub pad_added : Option Parser → Pad → List Call × Option Parser
  unfolding resolve_parser
  pad_added guard pad = if not (is_video pad) then ([], guard) else (
    link_pad pad.segment ∷ (resolve_parser guard pad.caps).0,
    (resolve_parser guard pad.caps).1,
  )
