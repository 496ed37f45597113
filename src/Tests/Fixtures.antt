-- ===== src/Tests/Fixtures.antt =====
-- A calendar, and segments, that the concrete runs use.
use oasis_nvr.Prelude.{
  ℕ, ◌+◌, ◌*◌, ◌/◌, ◌%◌, ◌^◌, ◌≤◌, ◌<◌, ◌≡◌, ap, some, List, [], ◌∷◌, Option, arith,
}
use oasis_nvr.Chrono.{Time, Chrono, whole_secs, nanos_per_sec}
use oasis_nvr.Utf8.{Text}
use oasis_nvr.Storage.ChunkPool.Record.{Segment}

abbrev pub seconds : Time → ℕ
seconds t = t / nanos_per_sec % 2 ^ 64

abbrev pub instant : ℕ → Option Time
instant n = some (n * nanos_per_sec)

pub seconds-lt : (t : Time) → seconds t < 2 ^ 64
seconds-lt t = omega arith

pub instant-seconds : (t : Time) → t ≤ 2 ^ 70 → instant (seconds t) ≡ some (whole_secs t)
instant-seconds t h = ap (λ (n : ℕ). some (n * nanos_per_sec)) (omega arith)

pub seconds-whole_secs : (t : Time) → seconds (whole_secs t) ≡ seconds t
seconds-whole_secs t = omega arith

-- A calendar whose first instant is the Unix epoch.
abbrev pub calendar : Chrono
calendar = record {
  last_instant = 2 ^ 70;
  timestamp = seconds;
  timestamp_opt = instant;
  timestamp-lt = seconds-lt;
  timestamp-whole_secs = seconds-whole_secs;
  timestamp_opt-timestamp = instant-seconds;
}

-- "cam1"
abbrev pub cam1 : Text
cam1 = 99 ∷ 97 ∷ 109 ∷ 49 ∷ []

-- "cam2"
abbrev pub cam2 : Text
cam2 = 99 ∷ 97 ∷ 109 ∷ 50 ∷ []

-- A segment of a camera, of one second from second `t` on.
abbrev pub segment : Text → ℕ → List ℕ → Segment
segment cam t bytes = record {
  camera_id = cam;
  start_ts = t * nanos_per_sec;
  end_ts = t * nanos_per_sec + nanos_per_sec;
  bytes = bytes;
}
