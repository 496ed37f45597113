-- ===== src/Ingestion/Reconnects.antt =====
-- The loops of `CameraWorker::run` of src/ingestion.rs as steps, with the channel of the stream that
-- is read: when the worker connects again.
use oasis_nvr.Prelude.{ℕ, ◌+◌, ◌≡◌, ◌≢◌, refl, sym, ◌∙◌, false, List, [], ◌∷◌, ◌++◌}
use oasis_nvr.Camera.{SegmentReady}
use oasis_nvr.Camera.Channel.{
  segment, closed, Mpsc, OpenStream, fresh, read_segment, read_segment-ne-closed,
}

pub data Progress : Type 0 where
  connecting exited : Progress
  recording : OpenStream → Progress

-- The worker, the connections that it made, and the segments that it forwarded.
pub record Worker : Type 0 where
  pub phase : Progress
  pub connections : ℕ
  pub forwarded : List SegmentReady

abbrev pub spawned : Worker
spawned = record { phase = connecting; connections = 0; forwarded = [] }

-- It has made this many connections, and reads the stream of the last.
abbrev pub ReadsAfter : ℕ → Worker → Type 0
ReadsAfter n w = (w.connections ≡ n) × (s : OpenStream) × (w.phase ≡ recording s)

connecting-ne-recording : (s : OpenStream) → connecting ≢ recording s
connecting-ne-recording s e = cc

module _ (mpsc : Mpsc) where
  -- What may happen: `supervised_connect` gives a stream or none; the pipeline completes a segment, or
  -- ends and gives up its callback; the worker receives a segment, or finds the channel closed.
  pub data Happens (w t : Worker) : Type 0 where
    connects :
        w.phase ≡ connecting
        → t ≡ record w { phase = recording fresh; connections = w.connections + 1 }
        → Happens w t
    gives_up : w.phase ≡ connecting → t ≡ record w { phase = exited } → Happens w t
    completes :
        (s : OpenStream) (seg : SegmentReady)
        → w.phase ≡ recording s
        → t ≡ record w { phase = recording (record s { queue = s.queue ++ (seg ∷ []) }) }
        → Happens w t
    pipeline_ends :
        (s : OpenStream)
        → w.phase ≡ recording s
        → t ≡ record w { phase = recording (record s { callback = false }) }
        → Happens w t
    forwards :
        (s : OpenStream) (seg : SegmentReady) (rest : List SegmentReady)
        → w.phase ≡ recording s
        → read_segment mpsc s ≡ segment seg rest
        → t ≡ record w {
          phase = recording (record s { queue = rest });
          forwarded = w.forwarded ++ (seg ∷ []);
        }
        → Happens w t
    reconnects :
        (s : OpenStream)
        → w.phase ≡ recording s
        → read_segment mpsc s ≡ closed
        → t ≡ record w { phase = connecting }
        → Happens w t

  pub data Reach (w : Worker) : Worker → Type 0 where
    start : Reach w w
    next : {t u : Worker} → Reach w t → Happens t u → Reach w u

  Happens-ReadsAfter : (n : ℕ) (w t : Worker) → Happens w t → ReadsAfter n w → ReadsAfter n t
  Happens-ReadsAfter n w t (connects p q) h = absurd (connecting-ne-recording h.1 (sym p ∙ h.2))
  Happens-ReadsAfter n w t (gives_up p q) h = absurd (connecting-ne-recording h.1 (sym p ∙ h.2))
  Happens-ReadsAfter n w t (completes s seg p q) h =
      rw q (h.0, record s { queue = s.queue ++ (seg ∷ []) }, refl)
  Happens-ReadsAfter n w t (pipeline_ends s p q) h = rw q (h.0, record s { callback = false }, refl)
  Happens-ReadsAfter n w t (forwards s seg rest p e q) h =
      rw q (h.0, record s { queue = rest }, refl)
  Happens-ReadsAfter n w t (reconnects s p e q) h = absurd (read_segment-ne-closed mpsc s e)

  -- A camera that is lost is never connected again: once the worker reads a stream, it reads a
  -- stream after any further steps, the end of the pipeline among them, and it has made no further
  -- connection. It is relied on that a channel is closed only when it has no senders.
  pub Reach-ReadsAfter :
      (w t : Worker) (s : OpenStream)
      → w.phase ≡ recording s
      → Reach w t
      → ReadsAfter w.connections t
  Reach-ReadsAfter w _ s p start = (refl, s, p)
  Reach-ReadsAfter w _ s p (next {t = t} {u = u} r m) =
      Happens-ReadsAfter w.connections t u m (Reach-ReadsAfter w t s p r)
