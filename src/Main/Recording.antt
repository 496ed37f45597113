-- ===== src/Main/Recording.antt =====
-- From the signals of a camera's stream to the answer of the API: src/camera.rs, src/ingestion.rs,
-- src/storage and src/api.rs together.
use oasis_nvr.Prelude.{
  ℕ, ◌+◌, ◌^◌, ◌≤◌, ◌<◌, ◌≡◌, refl, sym, subst, ap, ◌∙◌, Bool, true, Option, some, List, [], ◌∷◌,
  ◌++◌, map, arith, All, Ordered, length,
}
use oasis_nvr.Chrono.{Time, Chrono}
use oasis_nvr.Outcome.{ok}
use oasis_nvr.Storage.ChunkPool.Record.{record_size}
use oasis_nvr.Storage.ChunkPool.Record.RoundTrip.{IsStorable}
use oasis_nvr.Storage.ChunkPool.Ring.{Ring, ring_append, ring_run}
use oasis_nvr.Storage.ChunkPool.Ring.Retains.{advances}
use oasis_nvr.Storage.GlobalWriter.{WriteRequest, WriterState, writer_loop}
use oasis_nvr.Storage.GlobalWriter.Serves.{Serves}
use oasis_nvr.Storage.GlobalWriter.Loop.{step-Steps}
use oasis_nvr.Camera.{SegmentReady, Effect, remove_file, send, connected, signal_effects}
use oasis_nvr.Camera.Fragments.{spans, signal_effects-spans}
use oasis_nvr.Ingestion.{CameraWorker, Conditions, Spool, run}
use oasis_nvr.Ingestion.Forwarding.{HasFiles, requests, PathsDiffer, run-requests}
use oasis_nvr.Api.{AppState, mp4, answer}
use oasis_nvr.Api.Media.{handle_hls_segment}
use oasis_nvr.Api.Media.Serving.{serving}
use oasis_nvr.Api.Media.Retained.{writer_loop-retained}

-- The segments that a stream puts into its channel.
abbrev pub sent : List Effect → List SegmentReady
sent [] = []
sent (remove_file path ∷ effects) = sent effects
sent (send seg ∷ effects) = seg ∷ sent effects

sent-map : (segs : List SegmentReady) → sent (map send segs) ≡ segs
sent-map [] = refl
sent-map (seg ∷ segs) = ap (◌∷◌ seg) (sent-map segs)

stream-sent :
    (began : Time) (f : ℕ) (t : Time) (g : ℕ) (u : Time) (signals : List (ℕ × Time))
    → sent (signal_effects (connected began) ((f, t) ∷ (g, u) ∷ signals)).0
      ≡ spans ((g, u) ∷ signals)
stream-sent began f t g u signals =
    ap sent (signal_effects-spans began f t g u signals) ∙ sent-map (spans ((g, u) ∷ signals))

All-append {κ} :
    (P : WriteRequest → Type κ) (xs ys : List WriteRequest) → All P (xs ++ ys) → All P xs × All P ys
All-append P [] ys h = (tt, h)
All-append P (x ∷ xs) ys h = let (a, b) = All-append P xs ys h.1 in ((h.0, a), b)

requests-camera :
    (worker : CameraWorker) (segs : List SegmentReady) (bs : List (List ℕ))
    → All (λ q. q.camera_id ≡ worker.camera_id) (requests worker segs bs)
unfolding oasis_nvr.Ingestion.write_request
requests-camera worker [] bs = tt
requests-camera worker (s ∷ segs) [] = tt
requests-camera worker (s ∷ segs) (b ∷ bs) = (refl, requests-camera worker segs bs)

-- As `writer_loop-retained`, with requests before.
behind-retained :
    (ch : Chrono) (busy : ℕ → ℕ → Bool) (now : ℕ → Time) (k : ℕ) (w : WriterState) (r : Ring)
    (earlier : List WriteRequest) (req : WriteRequest) (later : List WriteRequest)
    (state : AppState) (n capacity : ℕ)
    → length w.store.pool.slots ≡ n
    → w.store.pool.pool_capacity ≡ capacity
    → Serves ch w r
    → All (IsStorable ch) (earlier ++ (req ∷ later))
    → All (λ q. record_size q ≤ capacity) (earlier ++ (req ∷ later))
    → w.index.segment_counter + length (earlier ++ (req ∷ later)) < 2 ^ 64
    → advances n capacity (ring_append n capacity (ring_run n capacity r earlier) req) later < n
    → length state.read_counters.counters ≡ n
    → All (λ m. m + 1 < 2 ^ 64) state.read_counters.counters
    → (v : WriterState) × (writer_loop ch busy now k w (earlier ++ (req ∷ later)) ≡ ok v)
      × (id : ℕ) × (handle_hls_segment (serving state v) req.camera_id id
          ≡ ok (answer mp4 req.bytes, state.read_counters))
unfolding writer_loop
behind-retained ch busy now k w r [] req later state n capacity en ec h fits small few rounds
      counted not_full =
    writer_loop-retained ch busy now k w r req later state h fits
      (subst (λ (x : ℕ). All (λ (q : WriteRequest). record_size q ≤ x) (req ∷ later)) (sym ec)
        small)
      few (rw (en, ec) rounds) (counted ∙ sym en) not_full
behind-retained ch busy now k w r (x ∷ earlier) req later state n capacity en ec h fits small few
      rounds counted not_full =
    let st = step-Steps ch (busy k) (now k) w r x n capacity en ec h fits.0 (omega arith) in
    rw st.outcome_is (
      behind-retained ch busy now (k + 1) st.after _ earlier req later state n capacity
        (st.same_count ∙ en) (st.same_capacity ∙ ec) st.serves fits.1 small.1
        (omega (arith, st.counter)) rounds counted not_full)

split-camera :
    (worker : CameraWorker) (earlier : List WriteRequest) (req : WriteRequest)
    (later : List WriteRequest)
    → All (λ q. q.camera_id ≡ worker.camera_id) (earlier ++ (req ∷ later))
    → req.camera_id ≡ worker.camera_id
split-camera worker [] req later h = h.0
split-camera worker (x ∷ earlier) req later h = split-camera worker earlier req later h.1

-- What a camera's stream records is served. Let a stream give the fragments of some signals, in
-- different files that can be read, and let the worker forward what it receives and the writer take
-- it. Then for any one of the requests for the fragments that are complete, but for the first, some id
-- is answered 200 with the bytes of its file when the segment of that id is asked
-- for under the worker's camera, as long as the later ones take the next of the `n` pools less than
-- `n` times. The writer's invariant must hold at first, the segments be such as can be encoded and
-- no larger than a pool, the ids not reach 2^64, and each pool have a counter with room for a reader.
pub stream-served :
    (ch : Chrono) (busy : ℕ → ℕ → Bool) (now : ℕ → Time) (w : WriterState) (r : Ring)
    (state : AppState) (worker : CameraWorker) (c : Conditions) (files : ℕ → Option (List ℕ))
    (began : Time) (f : ℕ) (t : Time) (g : ℕ) (u : Time) (signals : List (ℕ × Time))
    (bs : List (List ℕ)) (earlier : List WriteRequest) (req : WriteRequest)
    (later : List WriteRequest)
    → c.receiving ≡ true
    → Ordered PathsDiffer (spans ((g, u) ∷ signals))
    → HasFiles files (spans ((g, u) ∷ signals)) bs
    → requests worker (spans ((g, u) ∷ signals)) bs ≡ earlier ++ (req ∷ later)
    → Serves ch w r
    → All (IsStorable ch) (earlier ++ (req ∷ later))
    → All (λ q. record_size q ≤ w.store.pool.pool_capacity) (earlier ++ (req ∷ later))
    → w.index.segment_counter + length (earlier ++ (req ∷ later)) < 2 ^ 64
    → advances
        (length w.store.pool.slots)
        w.store.pool.pool_capacity
        (ring_append
          (length w.store.pool.slots)
          w.store.pool.pool_capacity
          (ring_run (length w.store.pool.slots) w.store.pool.pool_capacity r earlier)
          req)
        later
      < length w.store.pool.slots
    → length state.read_counters.counters ≡ length w.store.pool.slots
    → All (λ m. m + 1 < 2 ^ 64) state.read_counters.counters
    → (v : WriterState) × (writer_loop ch busy now 0 w
          (run worker c
            (some (sent (signal_effects (connected began) ((f, t) ∷ (g, u) ∷ signals)).0))
            (record { files = files; queue = [] })).queue
        ≡ ok v)
      × (id : ℕ) × (handle_hls_segment (serving state v) worker.camera_id id
          ≡ ok (answer mp4 req.bytes, state.read_counters))
stream-served ch busy now w r state worker c files began f t g u signals bs earlier req later up
      differ readable split h fits small few rounds counted not_full =
    let camera =
      split-camera worker earlier req later
        (rw split at (requests-camera worker (spans ((g, u) ∷ signals)) bs)) in
    let forwards =
      run-requests worker c (spans ((g, u) ∷ signals)) bs (record { files = files; queue = [] }) up
        differ readable in
    rw (stream-sent began f t g u signals, forwards, split, ← camera)
      (behind-retained ch busy now 0 w r earlier req later state _ _ refl refl h fits small few
        rounds counted not_full)
