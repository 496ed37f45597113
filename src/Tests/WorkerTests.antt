-- ===== src/Tests/WorkerTests.antt =====
-- The theorem on reconnection at a concrete worker: its stream gives one segment, then the pipeline ends.
use oasis_nvr.Prelude.{ℕ, zero, suc, ◌≡◌, refl, true, false, List, [], ◌∷◌}
use oasis_nvr.Camera.{SegmentReady}
use oasis_nvr.Camera.Channel.{
  Received, segment, pending, closed, Mpsc, OpenStream, fresh, read_segment,
}
use oasis_nvr.Ingestion.Reconnects.{
  Worker, recording, completes, pipeline_ends, forwards, Reach, start, next, ReadsAfter,
  Reach-ReadsAfter,
}

-- A channel that gives what is queued, and else is closed when it has no senders.
give : List SegmentReady → ℕ → Received
give (seg ∷ rest) n = segment seg rest
give [] zero = closed
give [] (suc n) = pending

give-closed : (queue : List SegmentReady) (n : ℕ) → give queue n ≡ closed → n ≡ 0
unfolding give
give-closed (seg ∷ rest) n e = cc
give-closed [] zero e = refl
give-closed [] (suc n) e = cc

abbrev mpsc : Mpsc
mpsc = record { recv = give; closed-senders = give-closed }

abbrev ready : SegmentReady
ready = record { path = 1; start_ts = 0; end_ts = 60 }

abbrev reading : OpenStream → List SegmentReady → Worker
reading s segs = record { phase = recording s; connections = 1; forwarded = segs }

one_segment :
    Reach mpsc (reading fresh []) (reading (record { queue = []; callback = false }) (ready ∷ []))
unfolding give read_segment
one_segment =
    next
      (next (next start (completes fresh ready refl refl))
        (pipeline_ends (record { queue = ready ∷ []; callback = true }) refl refl))
      (forwards (record { queue = ready ∷ []; callback = false }) ready [] refl refl refl)

Reach-ReadsAfter_example :
    ReadsAfter 1 (reading (record { queue = []; callback = false }) (ready ∷ []))
Reach-ReadsAfter_example =
    Reach-ReadsAfter mpsc (reading fresh [])
      (reading (record { queue = []; callback = false }) (ready ∷ [])) fresh refl one_segment
