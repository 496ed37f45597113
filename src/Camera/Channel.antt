-- ===== src/Camera/Channel.antt =====
-- The channel of a `CameraStream` of src/camera.rs, as `read_segment` sees it.
use oasis_nvr.Prelude.{ℕ, ◌+◌, ◌≡◌, ◌≢◌, Bool, true, List, [], arith, if◌then◌else◌}
use oasis_nvr.Camera.{SegmentReady}

-- What `Receiver::recv` gives when it is polled.
pub data Received : Type 0 where
  segment : (seg : SegmentReady) (rest : List SegmentReady) → Received
  pending closed : Received

-- `tokio::sync::mpsc`: the answer for these queued values and this number of senders, with what its
-- documentation says of the end of a channel.
pub record Mpsc : Type 0 where
  pub recv : List SegmentReady → ℕ → Received
  pub closed-senders :
      (queue : List SegmentReady) (senders : ℕ) → recv queue senders ≡ closed → senders ≡ 0

-- The stream's end of it: the values that were sent and not yet received, and whether the callback
-- of `format-location`, which has a sender, is still connected. The stream itself has another
-- sender, `seg_tx`.
pub record OpenStream : Type 0 where
  pub queue : List SegmentReady
  pub callback : Bool

abbrev pub fresh : OpenStream
fresh = record { queue = []; callback = true }

abbrev pub senders : OpenStream → ℕ
senders s = (if s.callback then 1 else 0) + 1

-- `CameraStream::read_segment`
unfoldable pub read_segment : Mpsc → OpenStream → Received
read_segment mpsc s = mpsc.recv s.queue (senders s)

-- A stream that is read is never closed.
pub read_segment-ne-closed : (mpsc : Mpsc) (s : OpenStream) → read_segment mpsc s ≢ closed
unfolding read_segment
read_segment-ne-closed mpsc s e = absurd (omega (arith, mpsc.closed-senders s.queue (senders s) e))
