-- ===== src/Storage/GlobalWriter/Loop.antt =====
-- The whole loop: it never fails, it implements the ring, and what it took last can be read.
use oasis_nvr.Prelude.{
  ℕ, ◌+◌, ◌^◌, ◌≤◌, ◌<◌, ◌≡◌, ◌⊎◌, inl, inr, refl, ◌∙◌, Bool, List, [], ◌∷◌, ◌++◌, arith, All,
  length,
}
use oasis_nvr.Chrono.{Time, Chrono}
use oasis_nvr.Outcome.{Result, ok}
use oasis_nvr.Storage.ChunkPool.Record.{record_size}
use oasis_nvr.Storage.ChunkPool.Record.RoundTrip.{IsStorable}
use oasis_nvr.Storage.ChunkPool.Ring.{Ring, ring_append, ring_run}
use oasis_nvr.Storage.GlobalWriter.{WriteRequest, WriterState, write_step, writer_loop}
use oasis_nvr.Storage.GlobalWriter.Serves.{Serves, Filed, Fresh, IsReadable, Serves-IsReadable}
use oasis_nvr.Storage.GlobalWriter.Refines.{Steps, write_step-Serves}

-- What a run of the loop leaves.
pub record Runs (ch : Chrono) (w : WriterState) (r : Ring) (outcome : Result WriterState)
    : Type 0 where
  pub after : WriterState
  pub outcome_is : outcome ≡ ok after
  pub serves : Serves ch after r
  pub readable : All (λ e. IsReadable after e.1) after.index.entries
  pub same_capacity : after.store.pool.pool_capacity ≡ w.store.pool.pool_capacity
  pub same_count : length after.store.pool.slots ≡ length w.store.pool.slots

pub step-Steps :
    (ch : Chrono) (busy : ℕ → Bool) (now : Time) (w : WriterState) (r : Ring) (req : WriteRequest)
    (n capacity : ℕ)
    → length w.store.pool.slots ≡ n
    → w.store.pool.pool_capacity ≡ capacity
    → Serves ch w r
    → IsStorable ch req
    → w.index.segment_counter + 1 < 2 ^ 64
    → Steps ch w req (ring_append n capacity r req) (write_step ch busy now w req)
step-Steps ch busy now w r req n capacity en ec h fit few =
    rw (← en, ← ec) (write_step-Serves ch busy now w r req h fit few)

loop-Runs :
    (ch : Chrono) (busy : ℕ → ℕ → Bool) (now : ℕ → Time) (k : ℕ) (w : WriterState) (r : Ring)
    (reqs : List WriteRequest) (n capacity : ℕ)
    → length w.store.pool.slots ≡ n
    → w.store.pool.pool_capacity ≡ capacity
    → Serves ch w r
    → All (IsStorable ch) reqs
    → w.index.segment_counter + length reqs < 2 ^ 64
    → Runs ch w (ring_run n capacity r reqs) (writer_loop ch busy now k w reqs)
unfolding writer_loop
loop-Runs ch busy now k w r [] n capacity en ec h fit few = record {
  after = w;
  outcome_is = refl;
  serves = h;
  readable = Serves-IsReadable ch w r h;
  same_capacity = refl;
  same_count = refl;
}
loop-Runs ch busy now k w r (req ∷ reqs) n capacity en ec h fit few =
    let st = step-Steps ch (busy k) (now k) w r req n capacity en ec h fit.0 (omega arith) in
    let more =
      loop-Runs ch busy now (k + 1) st.after _ reqs n capacity (st.same_count ∙ en)
        (st.same_capacity ∙ ec) st.serves fit.1 (omega (arith, st.counter)) in
    rw st.outcome_is (record {
      after = more.after;
      outcome_is = more.outcome_is;
      serves = more.serves;
      readable = more.readable;
      same_capacity = more.same_capacity ∙ st.same_capacity;
      same_count = more.same_count ∙ st.same_count;
    })

-- The writer's loop never fails on requests that can be encoded, and it implements the ring: the
-- pools it leaves represent the ring after all the segments in their order, and every entry of the
-- index can be read and gives the data of a segment with its camera and times. The
-- writer's invariant must hold at first, and the ids not reach 2^64.
pub writer_loop-Serves :
    (ch : Chrono) (busy : ℕ → ℕ → Bool) (now : ℕ → Time) (k : ℕ) (w : WriterState) (r : Ring)
    (reqs : List WriteRequest)
    → Serves ch w r
    → All (IsStorable ch) reqs
    → w.index.segment_counter + length reqs < 2 ^ 64
    → Runs ch w
        (ring_run (length w.store.pool.slots) w.store.pool.pool_capacity r reqs)
        (writer_loop ch busy now k w reqs)
writer_loop-Serves ch busy now k w r reqs h fit few =
    loop-Runs ch busy now k w r reqs _ _ refl refl h fit few

-- Whatever the writer took before, a request that is no larger than a pool is stored and can be
-- found: once the loop has taken it, the index lists it with its camera and times, and its location
-- reads back its bytes.
pub writer_loop-Filed :
    (ch : Chrono) (busy : ℕ → ℕ → Bool) (now : ℕ → Time) (k : ℕ) (w : WriterState) (r : Ring)
    (reqs : List WriteRequest) (req : WriteRequest)
    → Serves ch w r
    → All (IsStorable ch) reqs
    → IsStorable ch req
    → w.index.segment_counter + (length reqs + 1) < 2 ^ 64
    → record_size req ≤ w.store.pool.pool_capacity
    → (v : WriterState) × (writer_loop ch busy now k w (reqs ++ (req ∷ [])) ≡ ok v)
      × (length v.store.pool.slots ≡ length w.store.pool.slots)
      × Filed v req
unfolding writer_loop
writer_loop-Filed ch busy now k w r [] req h fits fit few le =
    let st = write_step-Serves ch (busy k) (now k) w r req h fit (omega arith) in
    rw st.outcome_is (st.after, refl, st.same_count, filed_of st.filed)
  where
    filed_of :
        {v : WriterState} {q : Ring}
        → (w.store.pool.pool_capacity < record_size req) ⊎ Fresh v q req
        → Filed v req
    filed_of (inl large) = absurd (omega arith)
    filed_of (inr f) = f.filed
writer_loop-Filed ch busy now k w r (x ∷ reqs) req h fits fit few le =
    let st = write_step-Serves ch (busy k) (now k) w r x h fits.0 (omega arith) in
    let (v, e, same, f) =
      writer_loop-Filed ch busy now (k + 1) st.after _ reqs req st.serves fits.1 fit
        (omega (arith, st.counter)) (omega (arith, st.same_capacity)) in
    rw st.outcome_is (v, e, same ∙ st.same_count, f)
