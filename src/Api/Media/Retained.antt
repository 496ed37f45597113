-- ===== src/Api/Media/Retained.antt =====
-- How long a recorded segment is served.
use oasis_nvr.Prelude.{
  ℕ, ◌+◌, ◌^◌, ◌≤◌, ◌<◌, ◌≡◌, ◌⊎◌, refl, sym, ◌∙◌, inl, inr, Bool, List, ◌∷◌, arith, All, length,
}
use oasis_nvr.Chrono.{Time, Chrono}
use oasis_nvr.Outcome.{ok}
use oasis_nvr.Storage.ChunkPool.Record.{record_size}
use oasis_nvr.Storage.ChunkPool.Record.RoundTrip.{IsStorable}
use oasis_nvr.Storage.ChunkPool.Ring.{Ring, ring_append}
use oasis_nvr.Storage.ChunkPool.Ring.Retains.{advances}
use oasis_nvr.Storage.GlobalWriter.{WriteRequest, WriterState, writer_loop}
use oasis_nvr.Storage.GlobalWriter.Serves.{Serves, Fresh}
use oasis_nvr.Storage.GlobalWriter.Refines.{write_step-Serves}
use oasis_nvr.Storage.GlobalWriter.Retention.{loop-Keeps}
use oasis_nvr.Api.{AppState, mp4, answer}
use oasis_nvr.Api.Media.{handle_hls_segment}
use oasis_nvr.Api.Media.Serving.{serving, serve-found}

stored_request :
    {cap size : ℕ} {v : WriterState} {q : Ring} {req : WriteRequest}
    → size ≤ cap
    → (cap < size) ⊎ Fresh v q req
    → Fresh v q req
stored_request le (inl large) = absurd (omega arith)
stored_request le (inr f) = f

-- A recorded segment is served until the ring comes round: after a request, the writer may take
-- further ones, none of them larger than a pool, and as long as these take the next of the `n` pools
-- less than `n` times, some id is still answered 200 with the first request's bytes when the segment
-- of that id is asked for under its camera. The writer's invariant must hold at first, the segments
-- be such as can be encoded, the ids not reach 2^64, and each pool have a counter with room for a
-- reader.
pub writer_loop-retained :
    (ch : Chrono) (busy : ℕ → ℕ → Bool) (now : ℕ → Time) (k : ℕ) (w : WriterState) (r : Ring)
    (req : WriteRequest) (reqs : List WriteRequest) (state : AppState)
    → Serves ch w r
    → All (IsStorable ch) (req ∷ reqs)
    → All (λ q. record_size q ≤ w.store.pool.pool_capacity) (req ∷ reqs)
    → w.index.segment_counter + length (req ∷ reqs) < 2 ^ 64
    → advances
        (length w.store.pool.slots)
        w.store.pool.pool_capacity
        (ring_append (length w.store.pool.slots) w.store.pool.pool_capacity r req)
        reqs
      < length w.store.pool.slots
    → length state.read_counters.counters ≡ length w.store.pool.slots
    → All (λ n. n + 1 < 2 ^ 64) state.read_counters.counters
    → (v : WriterState) × (writer_loop ch busy now k w (req ∷ reqs) ≡ ok v)
      × (id : ℕ) × (handle_hls_segment (serving state v) req.camera_id id
          ≡ ok (answer mp4 req.bytes, state.read_counters))
unfolding writer_loop
writer_loop-retained ch busy now k w r req reqs state h fits small few rounds counted not_full =
    let st = write_step-Serves ch (busy k) (now k) w r req h fits.0 (omega arith) in
    let f = stored_request small.0 st.filed in
    let m = f.filed.entry.1 in
    let lt : m.location.pool_idx < length w.store.pool.slots =
      omega (arith, f.filed.in_range, st.same_count) in
    let current_lt : (ring_append (length w.store.pool.slots) w.store.pool.pool_capacity r
          req).current
        < length w.store.pool.slots =
      omega (arith, st.serves.represents.in_range, st.same_count) in
    let (v, e, l, reads, count) =
      loop-Keeps ch busy now (k + 1) st.after _ reqs req.camera_id m req (length w.store.pool.slots)
        w.store.pool.pool_capacity 0 st.same_count st.same_capacity st.serves fits.1 small.1
        (omega (arith, st.counter)) (record { found = f.filed.found; given = f.given }) f.points lt
        (current_lt, inl (omega (arith, f.in_current))) (omega arith) in
    rw st.outcome_is (
      v,
      e,
      m.segment_id,
      serve-found (serving state v) v req.camera_id m.segment_id m req.bytes
          (record {
            same_index = refl;
            same_store = refl;
            counted = counted ∙ sym count;
            not_full = not_full;
          })
          l.found (omega (arith, count)) reads,
    )
