-- ===== src/Storage/GlobalWriter/Refines.antt =====
-- Each request of the writer keeps its invariant and stores the segment as the ring says.
use oasis_nvr.Prelude.{
  ℕ, ◌+◌, ◌%◌, ◌^◌, ◌≤◌, ◌<◌, ◌≡◌, ◌⊎◌, refl, ap, Bool, false, some, List, [], ◌∷◌, arith, ltb,
  ltb-false, ltb-false→le, ltb→lt, lt→ltb, ◌==◌, All, All-keep, length, get_elem?, add64, inl, inr,
  Bool-cases,
}
use mathlib.Core.List.{Mem, mem-cons_self, mem-cons_of_mem}
use oasis_nvr.Chrono.{Time, Chrono}
use oasis_nvr.Outcome.{Result, ok}
use oasis_nvr.Storage.ChunkPool.Types.{SegmentLocation}
use oasis_nvr.Storage.ChunkPool.Record.{Segment, record_size}
use oasis_nvr.Storage.ChunkPool.Record.RoundTrip.{IsStorable}
use oasis_nvr.Storage.ChunkPool.Record.Scan.{total_size}
use oasis_nvr.Storage.ChunkPool.Pool.{append, status, pool_count}
use oasis_nvr.Storage.ChunkPool.Ring.{Ring, IsAt, advance, ring_append}
use oasis_nvr.Storage.ChunkPool.Ring.Refines.{
  Stores, append-Represents, ring_append-stay, ring_append-advance, ring_append-too_large,
}
use oasis_nvr.Storage.Index.{Entry, SegmentIndex, key_lt, map_insert, insert, evict_pool}
use oasis_nvr.Storage.Index.Laws.{IsValid, All-map_insert, insert-IsValid, evict_pool-IsValid}
use oasis_nvr.Storage.Index.Finds.{find_segment-insert}
use oasis_nvr.Storage.GlobalWriter.{
  WriteRequest, WriterState, evict_next, record_append, write_step,
}
use oasis_nvr.Storage.GlobalWriter.Steps.{write_step-too_large}
use oasis_nvr.Storage.GlobalWriter.Serves.{
  Describes, Serves, Fresh, read-IsIn, stay-Describes, advance-Describes,
}

map_insert-Mem : (e : Entry) (es : List Entry) → Mem e (map_insert e es)
unfolding map_insert
map_insert-Mem e [] = mem-cons_self
map_insert-Mem e (f ∷ fs) = elim (Bool-cases (key_lt e.0 f.0)) [
  | inl lt ↦ rw lt (mem-cons_self)
  | inr ge ↦ rw ge (elim (Bool-cases (key_lt f.0 e.0)) [
    | inl gt ↦ rw gt (mem-cons_of_mem f (map_insert-Mem e fs))
    | inr eq ↦ rw eq (mem-cons_self)
  ])
]

-- The index with the new segment describes segments of the new ring.
pub insert-Describes :
    (r : Ring) (n : ℕ) (ix : SegmentIndex) (seg : Segment) (loc : SegmentLocation)
    → All (Describes r n) ix.entries
    → IsAt r loc seg
    → loc.pool_idx < n
    → All (Describes r n) (insert ix seg.camera_id seg.start_ts seg.end_ts loc).0.entries
unfolding insert
insert-Describes r n ix seg loc d at lt =
    All-map_insert (Describes r n) _ ix.entries
      (record {
        segment = seg;
        points = at;
        in_range = lt;
        same_camera = refl;
        same_start = refl;
        same_end = refl;
      })
      d

-- The entry that `insert` makes.
abbrev new_entry : SegmentIndex → WriteRequest → SegmentLocation → Entry
new_entry ix req loc = (
  record { camera_id = req.camera_id; start_ts = req.start_ts; segment_id = ix.segment_counter },
  record {
    segment_id = ix.segment_counter;
    camera_id = req.camera_id;
    start_ts = req.start_ts;
    end_ts = req.end_ts;
    location = loc;
  },
)

pub evict_pool-counter :
    (ix : SegmentIndex) (i : ℕ) → (evict_pool ix i).segment_counter ≡ ix.segment_counter
unfolding evict_pool
evict_pool-counter ix i = refl

evict_pool-Describes :
    (r : Ring) (n i : ℕ) (ix : SegmentIndex) (seg : Segment)
    → i ≡ (r.current + 1) % n
    → All (Describes r n) ix.entries
    → All (Describes (advance n r seg) n) (evict_pool ix i).entries
unfolding evict_pool
evict_pool-Describes r n i ix seg e d = rw e (advance-Describes r n seg ix.entries d)

-- What a request that the writer took leaves.
pub record Steps (ch : Chrono) (w : WriterState) (req : WriteRequest) (r : Ring)
    (outcome : Result WriterState) : Type 0 where
  pub after : WriterState
  pub outcome_is : outcome ≡ ok after
  pub serves : Serves ch after r
  pub same_capacity : after.store.pool.pool_capacity ≡ w.store.pool.pool_capacity
  pub same_count : length after.store.pool.slots ≡ length w.store.pool.slots
  pub filed : (w.store.pool.pool_capacity < record_size req) ⊎ Fresh after r req
  pub counter : after.index.segment_counter ≤ w.index.segment_counter + 1

module _ (ch : Chrono) (busy : ℕ → Bool) (now : Time) (w : WriterState) (r : Ring)
    (req : WriteRequest) (h : Serves ch w r) (fit : IsStorable ch req)
    (few : w.index.segment_counter + 1 < 2 ^ 64) where
  abbrev n : ℕ
  n = length w.store.pool.slots

  pub slot_is :
      get_elem? w.store.pool.slots w.store.pool.write_idx
      ≡ some (record {
        pool_id = (r.view r.current).pool_id;
        bytes_used = total_size (r.view r.current).segments;
      })
  slot_is = rw (h.represents.same_current) (h.represents.holds r.current h.represents.in_range).slot

  -- Too large: the next pool's entries are gone, and all else is as before.
  too_large-Steps :
      w.store.pool.pool_capacity < record_size req → Steps ch w req r (write_step ch busy now w req)
  unfolding evict_pool
  too_large-Steps large =
      let in_range = h.represents.in_range in
      let wide : w.store.pool.pool_capacity
          < add64 (total_size (r.view r.current).segments) (record_size req) =
        omega
          (arith, fit.length_fits, h.represents.bounded, h.represents.within r.current in_range) in
      record {
        after = record w {
          index = evict_pool w.index ((w.store.pool.write_idx + 1) % pool_count w.store.pool);
        };
        outcome_is = write_step-too_large ch busy now w req _ slot_is large wide;
        serves = record {
          represents = h.represents;
          described =
              All-keep (Describes r (length w.store.pool.slots)) _ w.index.entries h.described;
          valid = (evict_pool-IsValid w.index _ h.valid).0;
        };
        same_capacity = refl;
        same_count = refl;
        filed = inl large;
        counter = omega arith;
      }

  -- What the writer does once `append` has stored the request.
  stored-Steps :
      (q : Ring) (ix : SegmentIndex) (st : Stores ch w.store q req (append ch busy now req w.store))
      → IsValid ix
      → ix.segment_counter ≡ w.index.segment_counter
      → All (Describes q (length w.store.pool.slots)) ix.entries
      → Steps ch w req q (record_append req ix (append ch busy now req w.store))
  unfolding record_append insert
  stored-Steps q ix st valid same d = rw st.outcome_is (record {
    after = record {
      store = st.after;
      index = (insert ix req.camera_id req.start_ts req.end_ts st.location).0;
    };
    outcome_is = refl;
    serves = record {
      represents = st.represents;
      described = rw st.same_count (
          insert-Describes q _ ix req st.location d st.points
            (omega (arith, st.in_pool, st.represents.in_range, st.same_count)));
      valid =
          (insert-IsValid ix req.camera_id req.start_ts req.end_ts st.location (omega arith)
            valid).0;
    };
    same_capacity = st.same_capacity;
    same_count = st.same_count;
    filed = inr (record {
      filed = record {
        entry = new_entry ix req st.location;
        listed = map_insert-Mem _ ix.entries;
        same_camera = refl;
        same_start = refl;
        same_end = refl;
        found = find_segment-insert ix req.camera_id req.start_ts req.end_ts st.location valid;
        in_range = omega (arith, st.in_pool, st.represents.in_range, st.same_count);
        readable =
            read-IsIn ch st.after q st.location req st.represents
              (omega (arith, st.in_pool, st.represents.in_range, st.same_count)) st.points;
      };
      points = st.points;
      in_current = st.in_pool;
      given = omega arith;
    });
    counter = omega arith;
  })

  -- With room in the current pool nothing is evicted.
  room-Steps :
      total_size (r.view r.current).segments + record_size req ≤ w.store.pool.pool_capacity
      → Steps ch w req
          (ring_append n w.store.pool.pool_capacity r req)
          (write_step ch busy now w req)
  unfolding write_step status evict_next
  room-Steps le =
      let st = append-Represents ch busy now w.store r req h.represents fit (omega arith) in
      let sum : add64 (total_size (r.view r.current).segments) (record_size req)
          ≡ total_size (r.view r.current).segments + record_size req =
        omega (arith, h.represents.bounded) in
      rw (slot_is, sum, ltb-false w.store.pool.pool_capacity _ le)
        (stored-Steps _ w.index st h.valid refl (
          rw (ring_append-stay n w.store.pool.pool_capacity r req le)
            (stay-Describes r n req w.index.entries h.described)))

  -- Without room the next pool's entries are evicted before `append` takes that pool.
  full-Steps :
      record_size req ≤ w.store.pool.pool_capacity
      → w.store.pool.pool_capacity < total_size (r.view r.current).segments + record_size req
      → Steps ch w req
          (ring_append n w.store.pool.pool_capacity r req)
          (write_step ch busy now w req)
  unfolding write_step status evict_next
  full-Steps le full =
      let st = append-Represents ch busy now w.store r req h.represents fit le in
      let in_range = h.represents.in_range in
      let sum : add64 (total_size (r.view r.current).segments) (record_size req)
          ≡ total_size (r.view r.current).segments + record_size req =
        omega (arith, h.represents.bounded, h.represents.within r.current in_range) in
      let some_pools : (n == 0) ≡ false = ground arith in
      rw (slot_is, sum, lt→ltb w.store.pool.pool_capacity _ full, some_pools)
        (stored-Steps _ (evict_pool w.index ((w.store.pool.write_idx + 1) % n)) st
          (evict_pool-IsValid w.index _ h.valid).0 (evict_pool-counter w.index _)
          (rw (ring_append-advance n w.store.pool.pool_capacity r req le full) (
            evict_pool-Describes r n _ w.index req
              (ap (λ (c : ℕ). (c + 1) % n) h.represents.same_current) h.described)))

-- The writer takes every request that can be encoded, and keeps its invariant: the pools then
-- represent the ring with the segment, or the same ring where the segment is larger than a pool, and
-- each entry of the index describes a segment that the ring has where the entry points. A segment
-- that is not larger than a pool is then listed in the index with its camera and times, and its
-- location reads back its bytes. The next id must be below 2^64 - 1.
pub write_step-Serves :
    (ch : Chrono) (busy : ℕ → Bool) (now : Time) (w : WriterState) (r : Ring) (req : WriteRequest)
    → Serves ch w r
    → IsStorable ch req
    → w.index.segment_counter + 1 < 2 ^ 64
    → Steps ch w req
        (ring_append (length w.store.pool.slots) w.store.pool.pool_capacity r req)
        (write_step ch busy now w req)
write_step-Serves ch busy now w r req h fit few =
    elim (Bool-cases (ltb w.store.pool.pool_capacity (record_size req))) [
      | inl large ↦
          rw (ring_append-too_large (length w.store.pool.slots) _ r req (ltb→lt _ _ large))
            (too_large-Steps ch busy now w r req h fit few (ltb→lt _ _ large))
      | inr small ↦ elim (Bool-cases full) [
        | inl e ↦ full-Steps ch busy now w r req h fit few (ltb-false→le _ _ small) (ltb→lt _ _ e)
        | inr e ↦ room-Steps ch busy now w r req h fit few (ltb-false→le _ _ e)
      ]
    ]
  where
    full : Bool
    full = ltb w.store.pool.pool_capacity (total_size (r.view r.current).segments + record_size req)
