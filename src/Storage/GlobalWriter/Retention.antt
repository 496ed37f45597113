-- ===== src/Storage/GlobalWriter/Retention.antt =====
-- How long the writer keeps a segment in the index.
use oasis_nvr.Prelude.{
  ℕ, ◌+◌, ◌%◌, ◌^◌, ◌≤◌, ◌<◌, ◌≡◌, ◌≢◌, refl, sym, ◌∙◌, Bool, true, false, some, List, [], ◌∷◌,
  ◌==◌, arith, All, ltb, ltb-false, Bool-cases, inl, inr, add64, length,
}
use oasis_nvr.Utf8.{Text}
use oasis_nvr.Chrono.{Time, Chrono}
use oasis_nvr.Outcome.{Result, ok}
use oasis_nvr.Storage.ChunkPool.Types.{SegmentLocation}
use oasis_nvr.Storage.ChunkPool.Record.{Segment, record_size}
use oasis_nvr.Storage.ChunkPool.Record.RoundTrip.{IsStorable}
use oasis_nvr.Storage.ChunkPool.Record.Scan.{total_size}
use oasis_nvr.Storage.ChunkPool.Pool.{append, status, read_segment_data}
use oasis_nvr.Storage.ChunkPool.Ring.{Ring, IsIn}
use oasis_nvr.Storage.ChunkPool.Ring.Refines.{Stores, append-Represents}
use oasis_nvr.Storage.ChunkPool.Ring.Retains.{takes_next, advances, Behind, step-IsIn, taken-ne}
use oasis_nvr.Storage.Index.{
  SegmentMeta, SegmentIndex, insert, evict_pool, segments_for_camera, find_segment,
}
use oasis_nvr.Storage.Index.Laws.{IsValid, evict_pool-IsValid}
use oasis_nvr.Storage.Index.Finds.{find_segment-insert_other, find_segment-evict_pool}
use oasis_nvr.Storage.GlobalWriter.{
  WriteRequest, WriterState, evict_next, record_append, write_step, writer_loop,
}
use oasis_nvr.Storage.GlobalWriter.Serves.{Serves, read-IsIn}
use oasis_nvr.Storage.GlobalWriter.Loop.{step-Steps}
use oasis_nvr.Storage.GlobalWriter.Refines.{slot_is, evict_pool-counter}

-- The index gives this segment for its camera and id, and no new segment will get the id.
pub record Lists (ix : SegmentIndex) (camera : Text) (m : SegmentMeta) : Type 0 where
  pub found : find_segment m.segment_id (segments_for_camera ix camera) ≡ some m
  pub given : m.segment_id < ix.segment_counter

insert-Lists :
    (ix : SegmentIndex) (req : WriteRequest) (loc : SegmentLocation) (camera : Text)
    (m : SegmentMeta)
    → IsValid ix
    → ix.segment_counter + 1 < 2 ^ 64
    → Lists ix camera m
    → Lists (insert ix req.camera_id req.start_ts req.end_ts loc).0 camera m
unfolding insert
insert-Lists ix req loc camera m v few h = record {
  found =
      find_segment-insert_other ix req.camera_id req.start_ts req.end_ts loc m.segment_id camera v
        h.given
      ∙ h.found;
  given = omega (arith, h.given);
}

evict_pool-Lists :
    (ix : SegmentIndex) (p : ℕ) (camera : Text) (m : SegmentMeta)
    → m.location.pool_idx ≢ p
    → Lists ix camera m
    → Lists (evict_pool ix p) camera m
unfolding evict_pool
evict_pool-Lists ix p camera m ne l = record {
  found = find_segment-evict_pool ix p m.segment_id camera m ne l.found;
  given = l.given;
}

module _ (ch : Chrono) (busy : ℕ → Bool) (now : Time) (w : WriterState) (r : Ring)
    (req : WriteRequest) (h : Serves ch w r) (fit : IsStorable ch req)
    (few : w.index.segment_counter + 1 < 2 ^ 64) (le : record_size req ≤ w.store.pool.pool_capacity)
    (camera : Text) (m : SegmentMeta) (listed : Lists w.index camera m) where
  -- The writer's state after the request lists the segment.
  abbrev StillLists : Result WriterState → Type 0
  StillLists outcome = (v : WriterState) × (outcome ≡ ok v) × Lists v.index camera m

  stored-Lists :
      (q : Ring) (ix : SegmentIndex)
      → Stores ch w.store q req (append ch busy now req w.store)
      → IsValid ix
      → ix.segment_counter ≡ w.index.segment_counter
      → Lists ix camera m
      → StillLists (record_append req ix (append ch busy now req w.store))
  unfolding record_append
  stored-Lists q ix st v same l = rw st.outcome_is (
    record {
      store = st.after;
      index = (insert ix req.camera_id req.start_ts req.end_ts st.location).0;
    },
    refl,
    insert-Lists ix req st.location camera m v (omega arith) l,
  )

  -- A segment stays listed unless the request takes its pool.
  write_step-Lists :
      (takes_next w.store.pool.pool_capacity r req ≡ true
        → m.location.pool_idx ≢ (r.current + 1) % length w.store.pool.slots)
      → StillLists (write_step ch busy now w req)
  unfolding write_step status evict_next
  write_step-Lists safe =
      let st = append-Represents ch busy now w.store r req h.represents fit le in
      let in_range = h.represents.in_range in
      let used = total_size (r.view r.current).segments in
      let sum : add64 used (record_size req) ≡ used + record_size req =
        omega (arith, h.represents.bounded, h.represents.within r.current in_range) in
      let fits : ltb w.store.pool.pool_capacity (record_size req) ≡ false = ltb-false _ _ le in
      let some_pools : (length w.store.pool.slots == 0) ≡ false = ground arith in
      elim (Bool-cases (ltb w.store.pool.pool_capacity (used + record_size req))) [
        | inr room ↦
            rw (slot_is ch busy now w r req h fit few, sum, room)
              (stored-Lists _ w.index st h.valid refl listed)
        | inl full ↦
            rw (slot_is ch busy now w r req h fit few, sum, full, some_pools)
              (stored-Lists _ _ st (evict_pool-IsValid w.index _ h.valid).0
                (evict_pool-counter w.index _) (kept full))
      ]
    where
      kept :
          ltb w.store.pool.pool_capacity (total_size (r.view r.current).segments + record_size req)
            ≡ true
          → Lists
              (evict_pool w.index ((w.store.pool.write_idx + 1) % length w.store.pool.slots))
              camera
              m
      kept full =
          evict_pool-Lists w.index _ camera m
            (rw h.represents.same_current
              (safe (rw (ltb-false w.store.pool.pool_capacity (record_size req) le, full) refl)))
            listed

-- What is left of a listed segment: a state that lists it and reads it.
abbrev pub Keeps : Text → SegmentMeta → Segment → ℕ → Result WriterState → Type 0
Keeps camera m seg n outcome =
    (v : WriterState) × (outcome ≡ ok v)
    × Lists v.index camera m
    × (read_segment_data m.location v.store ≡ (ok seg.bytes, v.store))
    × (length v.store.pool.slots ≡ n)

pub loop-Keeps :
    (ch : Chrono) (busy : ℕ → ℕ → Bool) (now : ℕ → Time) (k : ℕ) (w : WriterState) (r : Ring)
    (reqs : List WriteRequest) (camera : Text) (m : SegmentMeta) (seg : Segment) (n capacity d : ℕ)
    → length w.store.pool.slots ≡ n
    → w.store.pool.pool_capacity ≡ capacity
    → Serves ch w r
    → All (IsStorable ch) reqs
    → All (λ q. record_size q ≤ capacity) reqs
    → w.index.segment_counter + length reqs < 2 ^ 64
    → Lists w.index camera m
    → IsIn (r.view m.location.pool_idx) m.location seg
    → m.location.pool_idx < n
    → Behind n m.location.pool_idx r.current d
    → d + advances n capacity r reqs < n
    → Keeps camera m seg n (writer_loop ch busy now k w reqs)
unfolding writer_loop
loop-Keeps ch busy now k w r [] camera m seg n capacity d en ec h fits small few l at lt b rounds =
    (w, refl, l, read-IsIn ch w.store r m.location seg h.represents (rw en lt) at, en)
loop-Keeps ch busy now k w r (x ∷ reqs) camera m seg n capacity d en ec h fits small few l at lt b
      rounds =
    let st = step-Steps ch (busy k) (now k) w r x n capacity en ec h fits.0 (omega arith) in
    let (b', at') = step-IsIn n capacity x r m.location seg d lt b (omega arith) at in
    let (v, e, l') =
      write_step-Lists ch (busy k) (now k) w r x h fits.0 (omega arith) (rw ec small.0) camera m l
        (rw (en, ec) (taken-ne n capacity x r m.location.pool_idx d lt b (omega arith))) in
    let same : Path (Result WriterState) (ok v) (ok st.after) = sym e ∙ st.outcome_is in
    let q : v ≡ st.after = cc in
    rw st.outcome_is (
      loop-Keeps ch busy now (k + 1) st.after _ reqs camera m seg n capacity _ (st.same_count ∙ en)
        (st.same_capacity ∙ ec) st.serves fits.1 small.1 (omega (arith, st.counter)) (rw (← q) l')
        at' lt b' (omega arith))
