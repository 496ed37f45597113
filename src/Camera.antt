-- ===== src/Camera.antt =====
-- src/camera.rs: the state machine behind the `format-location` signal and `CameraStream::stop`, and
-- `supervised_connect`. The GStreamer pipeline is a third party's: its signals are the events, and
-- whether a connection attempt succeeds is an argument here; `Pipeline` has the calls of an attempt.
-- What the code does to files and to the segment channel is a list of effects; a path stands as the
-- number of its fragment.
pub mod Fragments
pub mod Backoff
pub mod Pipeline
pub mod Channel
use oasis_nvr.Prelude.{
  ℕ, zero, suc, ◌+◌, ◌-◌, ◌^◌, min, Bool, true, false, Option, none, some, List, [], ◌∷◌, ◌++◌,
  ◌==◌, if◌then◌else◌,
}
use oasis_nvr.Chrono.{Time}
use oasis_nvr.Config.{CameraConfig}

pub record SegmentReady : Type 0 where
  pub path : ℕ
  pub start_ts : Time
  pub end_ts : Time

pub record FragmentState : Type 0 where
  pub current_path : Option ℕ
  pub current_start : Time
  pub discard_next : Bool

pub data Effect : Type 0 where
  remove_file : ℕ → Effect
  send : SegmentReady → Effect

-- The state that `connect` starts with.
abbrev pub connected : Time → FragmentState
connected now = record { current_path = none; current_start = now; discard_next = true }

-- The fragment at `path` is complete.
unfoldable pub finish : FragmentState → ℕ → Time → List Effect
finish st path now =
    if st.discard_next
    then remove_file path ∷ []
    else send (record { path = path; start_ts = st.current_start; end_ts = now }) ∷ []

-- The signal `format-location` for a new fragment.
unfoldable pub format_location : FragmentState → ℕ → Time → List Effect × FragmentState
unfolding finish
format_location st fragment_id now = elim st.current_path [
  | none ↦ ([], record st { current_path = some fragment_id; current_start = now })
  | some prev ↦ (
    finish st prev now,
    record { current_path = some fragment_id; current_start = now; discard_next = false },
  )
]

-- `CameraStream::stop`
unfoldable pub stop : FragmentState → Time → List Effect × FragmentState
unfolding finish
stop st now = elim st.current_path [
  | none ↦ ([], st)
  | some path ↦ (finish st path now, record st { current_path = none })
]

-- The signals of a stream, each with its fragment and time: what they do, and the state they leave.
unfoldable pub signal_effects : FragmentState → List (ℕ × Time) → List Effect × FragmentState
unfolding format_location
signal_effects st [] = ([], st)
signal_effects st ((fragment, now) ∷ signals) =
    let (effects, st') = format_location st fragment now in
    let (more, last) = signal_effects st' signals in (effects ++ more, last)

-- `2u64.pow(attempt.min(6)).min(60)` seconds
abbrev pub backoff : ℕ → ℕ
backoff attempt = min (2 ^ min attempt 6) 60

-- The loop of `supervised_connect` with `left` attempts to go: the attempt that succeeded, if one
-- did, and the pauses taken.
unfoldable pub connect_loop : (ℕ → Bool) → ℕ → ℕ → Option ℕ × List ℕ
connect_loop succeeds zero attempt = (none, [])
connect_loop succeeds (suc left) attempt =
    let (result, pauses) = connect_loop succeeds left (suc attempt) in
    if succeeds attempt then (some attempt, []) else (result, backoff (suc attempt) ∷ pauses)

abbrev pub max_attempts : CameraConfig → ℕ
max_attempts c = if c.max_reconnect_attempts == 0 then 2 ^ 32 - 1 else c.max_reconnect_attempts

unfoldable pub supervised_connect : CameraConfig → (ℕ → Bool) → Option ℕ × List ℕ
supervised_connect c succeeds = connect_loop succeeds (max_attempts c) 0
