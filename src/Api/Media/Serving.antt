-- ===== src/Api/Media/Serving.antt =====
-- What `handle_hls_segment` serves from the pool that the writer fills.
use oasis_nvr.Prelude.{
  ℕ, zero, suc, ◌+◌, ◌^◌, ◌≤◌, ◌<◌, ◌≡◌, refl, sym, ◌∙◌, none, some, Bool, List, [], ◌∷◌, ◌++◌, ◌⊎◌,
  inl, inr, arith, All, length, get_elem?, get_elem?-some,
}
use oasis_nvr.Utf8.{Text}
use oasis_nvr.Chrono.{Time, Chrono}
use oasis_nvr.Outcome.{ok}
use oasis_nvr.Storage.ChunkPool.Readers.Laws.{acquire-drop_guard}
use oasis_nvr.Storage.ChunkPool.Record.{record_size}
use oasis_nvr.Storage.ChunkPool.Record.RoundTrip.{IsStorable}
use oasis_nvr.Storage.ChunkPool.Pool.{read_segment_data}
use oasis_nvr.Storage.ChunkPool.Ring.{Ring}
use oasis_nvr.Storage.Index.{SegmentMeta, segments_for_camera, find_segment}
use oasis_nvr.Storage.GlobalWriter.{WriteRequest, WriterState, writer_loop}
use oasis_nvr.Storage.GlobalWriter.Serves.{Serves, Locates, find_segment-Locates, read-IsIn}
use oasis_nvr.Storage.GlobalWriter.Loop.{writer_loop-Filed}
use oasis_nvr.Api.{AppState, not_found_404, plain_text, mp4, segment_not_found, answer, refuse}
use oasis_nvr.Api.Media.{handle_hls_segment}

-- The handlers see what the writer wrote, there is a counter for each pool, and one more reader does
-- not overflow it.
pub record Sees (state : AppState) (w : WriterState) : Type 0 where
  pub same_index : state.index ≡ w.index
  pub same_store : state.store ≡ w.store
  pub counted : length state.read_counters.counters ≡ length w.store.pool.slots
  pub not_full : All (λ n. n + 1 < 2 ^ 64) state.read_counters.counters

All-get {κ} : (P : ℕ → Type κ) (xs : List ℕ) (i n : ℕ) → All P xs → get_elem? xs i ≡ some n → P n
All-get P [] i n h e = absurd (ground arith)
All-get P (x ∷ xs) zero n h e = let q : x ≡ n = cc in rw (← q) h.0
All-get P (x ∷ xs) (suc i) n h e = All-get P xs i n h.1 e

-- A segment that is found and can be read is served, and the read counters are as before.
pub serve-found :
    (state : AppState) (w : WriterState) (camera : Text) (id : ℕ) (m : SegmentMeta) (bytes : List ℕ)
    → Sees state w
    → find_segment id (segments_for_camera w.index camera) ≡ some m
    → m.location.pool_idx < length w.store.pool.slots
    → read_segment_data m.location w.store ≡ (ok bytes, w.store)
    → handle_hls_segment state camera id ≡ ok (answer mp4 bytes, state.read_counters)
unfolding handle_hls_segment
serve-found state w camera id m bytes sees found lt reads =
    let (n, at) =
      get_elem?-some state.read_counters.counters m.location.pool_idx
        (omega (arith, sees.counted)) in
    let (acquired, held, others, dropped) =
      acquire-drop_guard state.read_counters m.location.pool_idx n at (
        All-get (λ k. k + 1 < 2 ^ 64) state.read_counters.counters m.location.pool_idx n
          sees.not_full at) in
    rw (handle_hls_segment, sees.same_index, found, acquired, sees.same_store, reads, dropped) refl

-- While the writer's invariant holds for a ring, a request for a segment never fails: either the
-- index lists no segment under the camera and the id, and the answer is 404; or it lists one, which
-- is a segment of that camera that the ring has at the listed location, and the answer is 200 with
-- that segment's bytes. The read counters are as before.
pub handle_hls_segment-Serves :
    (ch : Chrono) (w : WriterState) (r : Ring) (state : AppState) (camera : Text) (id : ℕ)
    → Serves ch w r
    → Sees state w
    → ((find_segment id (segments_for_camera w.index camera) ≡ none)
        × (handle_hls_segment state camera id
            ≡ ok (refuse not_found_404 plain_text segment_not_found, state.read_counters)))
      ⊎ ((m : SegmentMeta) × (find_segment id (segments_for_camera w.index camera) ≡ some m)
          × (l : Locates r (length w.store.pool.slots) camera id m) × (handle_hls_segment state
                camera id
              ≡ ok (answer mp4 l.segment.bytes, state.read_counters)))
unfolding handle_hls_segment
handle_hls_segment-Serves ch w r state camera id h sees =
    elim (find_segment-Locates r (length w.store.pool.slots) w.index camera id h.described) [
      | inl e ↦ inl (e, rw (handle_hls_segment, sees.same_index, e) refl)
      | inr (m, found, l) ↦ inr (
        m,
        found,
        l,
        serve-found state w camera id m l.segment.bytes sees found l.in_range
            (read-IsIn ch w.store r m.location l.segment h.represents l.in_range l.points),
      )
    ]

-- The handlers' state once the writer is in this state.
abbrev pub serving : AppState → WriterState → AppState
serving state v = record state { index = v.index; store = v.store }

-- What is recorded is served: the writer's loop takes a request that is no larger than a pool,
-- whatever it took before, and then some id is answered 200 with the request's bytes when the
-- segment of that id is asked for under the request's camera, and the read counters are as before.
-- The writer's invariant must hold at first, the segments be such as can be encoded, the ids not
-- reach 2^64, and each pool have a counter with room for a reader.
pub writer_loop-handle_hls_segment :
    (ch : Chrono) (busy : ℕ → ℕ → Bool) (now : ℕ → Time) (k : ℕ) (w : WriterState) (r : Ring)
    (reqs : List WriteRequest) (req : WriteRequest) (state : AppState)
    → Serves ch w r
    → All (IsStorable ch) reqs
    → IsStorable ch req
    → w.index.segment_counter + (length reqs + 1) < 2 ^ 64
    → record_size req ≤ w.store.pool.pool_capacity
    → length state.read_counters.counters ≡ length w.store.pool.slots
    → All (λ n. n + 1 < 2 ^ 64) state.read_counters.counters
    → (v : WriterState) × (writer_loop ch busy now k w (reqs ++ (req ∷ [])) ≡ ok v)
      × (id : ℕ) × (handle_hls_segment (serving state v) req.camera_id id
          ≡ ok (answer mp4 req.bytes, state.read_counters))
writer_loop-handle_hls_segment ch busy now k w r reqs req state h fits fit few le counted not_full =
    let (v, e, same, f) = writer_loop-Filed ch busy now k w r reqs req h fits fit few le in
    (
      v,
      e,
      f.entry.1.segment_id,
      serve-found (serving state v) v req.camera_id f.entry.1.segment_id f.entry.1 req.bytes
          (record {
            same_index = refl;
            same_store = refl;
            counted = counted ∙ sym same;
            not_full = not_full;
          })
          f.found f.in_range f.readable,
    )
