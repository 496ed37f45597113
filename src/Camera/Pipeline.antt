-- ===== src/Camera/Pipeline.antt =====
-- `CameraStream::connect` of src/camera.rs, call by call, and its handler of the signal `pad-added`,
-- which builds the chain from the source to `splitmuxsink` for the encoding that the camera sends.
pub mod Chain
pub mod Connects
use oasis_nvr.Prelude.{
  ℕ, ◌*◌, ◌%◌, ◌^◌, Bool, true, false, not, ◌&&◌, Option, none, some, List, [], ◌∷◌, bytes_eq,
  if◌then◌else◌,
}
use oasis_nvr.Utf8.{Text}
use oasis_nvr.Chrono.{Time}
use oasis_nvr.Outcome.{Result, ok, err, panic}
use oasis_nvr.Config.{CameraConfig}
use oasis_nvr.Calls.{Calls, attempt, ignore, ◌>>◌}
use oasis_nvr.Camera.{Effect, FragmentState, connected, stop, supervised_connect}

-- The calls of `connect`. The text that is launched names the location of the source and
-- `max-size-time` in nanoseconds; `fragment-duration` is in milliseconds.
pub data Call : Type 0 where
  init create_dir_all : Call
  launch : Text → ℕ → Call
  downcast find_src find_splitmux : Call
  set_async_finalize set_muxer_factory : Call
  set_muxer_properties : ℕ → Call
  connect_pad_added connect_format_location set_playing spawn_split_now : Call

pub record CameraStream : Type 0 where
  pub config : CameraConfig
  pub state : FragmentState

-- `as_nanos() as u64` and `as_millis() as u32` of a duration in seconds
abbrev pub as_nanos : ℕ → ℕ
as_nanos secs = secs * 1000000000 % 2 ^ 64

abbrev pub as_millis : ℕ → ℕ
as_millis secs = secs * 1000 % 2 ^ 32

unfoldable pub connect : (Call → Bool) → CameraConfig → ℕ → Time → Calls Call CameraStream
connect works config segment_duration now = do
  attempt works init
  attempt works create_dir_all
  attempt works (launch config.url (as_nanos segment_duration))
  attempt works downcast
  attempt works find_src
  attempt works find_splitmux
  ignore works set_async_finalize
  ignore works set_muxer_factory
  ignore works (set_muxer_properties (as_millis segment_duration))
  ignore works connect_pad_added
  ignore works connect_format_location
  attempt works set_playing
  ignore works spawn_split_now
  ([], ok (record { config = config; state = connected now }))

abbrev pub is_ok {ℓ} : {A : Type ℓ} → Result A → Bool
is_ok (ok a) = true
is_ok (err e) = false
is_ok panic = false

-- `supervised_connect` with the calls of each attempt.
abbrev pub supervised : CameraConfig → ℕ → (ℕ → Call → Bool) → (ℕ → Time) → Option ℕ × List ℕ
supervised c segment_duration works now =
    supervised_connect c (λ k. is_ok (connect (works k) c segment_duration (now k)).1)

pub data Encoding : Type 0 where
  h264 av1 : Encoding

pub data Factory : Type 0 where
  rtph264depay h264parse rtpav1depay av1parse : Factory

-- The calls of the handler.
pub data PadCall : Type 0 where
  make add sync_state_with_parent : Factory → PadCall
  set_config_interval : PadCall
  link : Factory → Factory → PadCall
  -- pads of the elements, and the links between pads
  static_sink static_src : Factory → PadCall
  link_pad : Factory → PadCall
  request_video : PadCall
  link_splitmux : Factory → PadCall

-- "video", "H264" and "AV1"
abbrev pub video : Text
video = 118 ∷ 105 ∷ 100 ∷ 101 ∷ 111 ∷ []

abbrev pub h264_name : Text
h264_name = 72 ∷ 50 ∷ 54 ∷ 52 ∷ []

abbrev pub av1_name : Text
av1_name = 65 ∷ 86 ∷ 49 ∷ []

-- The fields of the caps' first structure that the handler reads, where they are texts.
pub record Structure : Type 0 where
  pub media : Option Text
  pub encoding_name : Option Text

abbrev pub is_text : Option Text → Text → Bool
is_text none t = false
is_text (some s) t = bytes_eq s t

unfoldable pub encoding_of : Option Text → Option Encoding
encoding_of name =
    if is_text name h264_name then some h264 else (if is_text name av1_name then some av1 else none)

abbrev pub depay : Encoding → Factory
depay h264 = rtph264depay
depay av1 = rtpav1depay

abbrev pub parse : Encoding → Factory
parse h264 = h264parse
parse av1 = av1parse

module _ (works : PadCall → Bool) where
  -- From the loop over both elements on.
  unfoldable pub link_chain : Encoding → Calls PadCall (Unit {0})
  link_chain e = do
    attempt works (add (depay e))
    attempt works (sync_state_with_parent (depay e))
    attempt works (add (parse e))
    attempt works (sync_state_with_parent (parse e))
    attempt works (link (depay e) (parse e))
    attempt works (static_sink (depay e))
    attempt works (link_pad (depay e))
    attempt works request_video
    attempt works (static_src (parse e))
    attempt works (link_splitmux (parse e))
    ([], ok tt)

  unfoldable pub configure : Encoding → Calls PadCall (Unit {0})
  unfolding link_chain
  configure h264 = ignore works set_config_interval (link_chain h264)
  configure av1 = link_chain av1

  -- Both elements are made, also where the first cannot be.
  unfoldable pub build_chain : Encoding → List PadCall × Bool
  unfolding configure
  build_chain e =
      if works (make (depay e)) && works (make (parse e))
      then (make (depay e) ∷ make (parse e) ∷ (configure e).0, is_ok (configure e).1)
      else (make (depay e) ∷ make (parse e) ∷ [], false)

  -- The calls that the handler makes for a pad with these caps, and whether the camera is recorded
  -- from then on.
  unfoldable pub pad_added : Option (Option Structure) → List PadCall × Bool
  unfolding build_chain
  pad_added none = ([], false)
  pad_added (some none) = ([], false)
  pad_added (some (some s)) =
      if not (is_text s.media video)
      then ([], false)
      else elim (encoding_of s.encoding_name) [ none ↦ ([], false) | some e ↦ build_chain e ]

-- What `stop` asks of the pipeline before it flushes the open fragment: none of it is checked.
pub data StopCall : Type 0 where
  send_eos timed_pop set_null : StopCall

pub record Stopped : Type 0 where
  pub calls : List StopCall
  pub effects : List Effect
  pub state : FragmentState

-- `CameraStream::stop`, with a bus or without.
unfoldable pub stop_stream : Bool → CameraStream → Time → Stopped
stop_stream has_bus stream now = record {
  calls = if has_bus then send_eos ∷ timed_pop ∷ set_null ∷ [] else send_eos ∷ set_null ∷ [];
  effects = (stop stream.state now).0;
  state = (stop stream.state now).1;
}

-- `Drop for CameraStream`, which alone calls `stop`. The receiver goes with the stream, so what `stop`
-- sends is received by none.
unfoldable pub drop_stream : Bool → CameraStream → Time → Stopped
drop_stream has_bus stream now = stop_stream has_bus stream now
