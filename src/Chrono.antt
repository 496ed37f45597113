-- ===== src/Chrono.antt =====
-- What the recorder uses of the crate `chrono`: instants, and their Unix seconds as an `i64`.
-- A `DateTime<Utc>` is the number of nanoseconds since the earliest instant that chrono represents,
-- so every instant, before 1970 too, is a natural number. An `i64` is its 64-bit pattern.
use oasis_nvr.Prelude.{ℕ, ◌*◌, ◌/◌, ◌^◌, ◌≤◌, ◌<◌, ◌≡◌, Option, some}

abbrev pub Time : Type 0
Time = ℕ

abbrev pub nanos_per_sec : ℕ
nanos_per_sec = 1000000000

-- An instant with its sub-second part dropped.
abbrev pub whole_secs : Time → Time
whole_secs t = t / nanos_per_sec * nanos_per_sec

-- `DateTime::timestamp` and `Utc.timestamp_opt(secs, 0).single()`, with what the documentation of
-- chrono says of them: seconds are an `i64`, they do not depend on the sub-second part of an instant,
-- and they name the instant they were taken from, up to that part.
pub record Chrono : Type 0 where
  pub last_instant : Time
  pub timestamp : Time → ℕ
  pub timestamp_opt : ℕ → Option Time
  pub timestamp-lt : (t : Time) → timestamp t < 2 ^ 64
  pub timestamp-whole_secs : (t : Time) → timestamp (whole_secs t) ≡ timestamp t
  pub timestamp_opt-timestamp :
      (t : Time) → t ≤ last_instant → timestamp_opt (timestamp t) ≡ some (whole_secs t)
