-- ===== src/Ingestion.antt =====
-- src/ingestion.rs: `CameraWorker`. The temporary files, the channel to the writer and the stream
-- that `supervised_connect` gives are the state and the arguments; a path is a number, as in
-- `SegmentReady`.
pub mod Forwarding
pub mod Reconnects
use oasis_nvr.Prelude.{
  ℕ, zero, suc, Bool, true, false, Option, none, some, List, [], ◌∷◌, ◌++◌, ◌==◌, if◌then◌else◌,
}
use oasis_nvr.Utf8.{Text}
use oasis_nvr.Camera.{SegmentReady}
use oasis_nvr.Storage.GlobalWriter.{WriteRequest}

-- How `wait_for_file_stable` ends.
pub data Stability : Type 0 where
  missing stable still_changing : Stability

-- `size k` is the answer to the question for the file's size that is asked the k-th time. The loop
-- has `left` rounds to go, and asks for the k-th time next. The number is that of the questions.
unfoldable pub wait_loop : (ℕ → Option ℕ) → ℕ → ℕ → ℕ → Stability × ℕ
wait_loop size zero last k = (still_changing, k)
wait_loop size (suc left) last k = elim (size k) [
  | none ↦ (missing, suc k)
  | some now ↦
      let later = wait_loop size left now (suc k) in if now == last then (stable, suc k) else later
]

-- `MAX_ATTEMPTS`
abbrev pub max_stable_attempts : ℕ
max_stable_attempts = 30

unfoldable pub wait_for_file_stable : (ℕ → Option ℕ) → Stability × ℕ
wait_for_file_stable size = elim (size 0) [
  | none ↦ (missing, 1)
  | some last ↦ wait_loop size max_stable_attempts last 1
]

-- The temporary files, and the requests that wait for the writer.
pub record Spool : Type 0 where
  pub files : ℕ → Option (List ℕ)
  pub queue : List WriteRequest

abbrev pub without : (ℕ → Option (List ℕ)) → ℕ → ℕ → Option (List ℕ)
without files path p = if path == p then none else files p

pub record CameraWorker : Type 0 where
  pub camera_id : Text

-- Whether a temporary file can be removed, and whether the writer still receives.
pub record Conditions : Type 0 where
  pub removable : ℕ → Bool
  pub receiving : Bool

unfoldable pub write_request : CameraWorker → SegmentReady → List ℕ → WriteRequest
write_request worker seg bytes = record {
  camera_id = worker.camera_id;
  start_ts = seg.start_ts;
  end_ts = seg.end_ts;
  bytes = bytes;
}

-- The wait only passes time. A file that cannot be read is left; one that cannot be removed is sent
-- all the same.
unfoldable pub forward_segment : CameraWorker → Conditions → SegmentReady → Spool → Spool
forward_segment worker c seg s = elim (s.files seg.path) [
  | none ↦ s
  | some bytes ↦ record {
    files = if c.removable seg.path then without s.files seg.path else s.files;
    queue = if c.receiving then s.queue ++ (write_request worker seg bytes ∷ []) else s.queue;
  }
]

-- `while let Some(seg) = stream.read_segment()`
unfoldable pub drain_stream : CameraWorker → Conditions → List SegmentReady → Spool → Spool
drain_stream worker c [] s = s
drain_stream worker c (seg ∷ segs) s = drain_stream worker c segs (forward_segment worker c seg s)

-- The stream is what `supervised_connect` gives, if it does not give up, and the list what comes
-- through its channel. The channel never closes, so no other stream follows (Reconnects).
unfoldable pub run : CameraWorker → Conditions → Option (List SegmentReady) → Spool → Spool
run worker c none s = s
run worker c (some stream) s = drain_stream worker c stream s
