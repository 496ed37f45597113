-- ===== src/Storage/GlobalWriter/Serves.antt =====
-- The invariant of the writer: its pools represent a ring, and each entry of its index describes a
-- segment that the ring has where the entry points.
use oasis_nvr.Prelude.{
  ℕ, none, some, ◌⊎◌, sym, ◌∙◌, ◌+◌, ◌%◌, ◌≡◌, not, List, [], ◌∷◌, arith, keep, length, All, inl,
  inr, Bool-cases, ◌<◌,
}
use mathlib.Core.List.{Mem}
use oasis_nvr.Chrono.{Chrono}
use oasis_nvr.Outcome.{ok}
use oasis_nvr.Storage.ChunkPool.Types.{SegmentLocation}
use oasis_nvr.Storage.ChunkPool.Record.{Segment, record_size}
use oasis_nvr.Storage.ChunkPool.Record.Scan.{total_size}
use oasis_nvr.Storage.ChunkPool.Files.{Store}
use oasis_nvr.Storage.ChunkPool.Pool.{read_segment_data}
use oasis_nvr.Storage.ChunkPool.Pool.Read.{read_segment_data-Holds}
use oasis_nvr.Storage.ChunkPool.Ring.{View, Ring, IsIn, stay, advance, Represents}
use oasis_nvr.Storage.ChunkPool.Ring.Changes.{put_view-cases, IsIn-snoc}
use oasis_nvr.Storage.Index.{SegmentMeta, Entry, SegmentIndex, segments_for_camera, find_segment}
use oasis_nvr.Storage.Index.Finds.{find_segment-Finds}
use oasis_nvr.Utf8.{Text}
use oasis_nvr.Storage.Index.Laws.{IsValid, in_pool}
use oasis_nvr.Storage.GlobalWriter.{WriteRequest, WriterState}

-- The entry describes a segment of one of the ring's `n` pools.
pub record Describes (r : Ring) (n : ℕ) (e : Entry) : Type 0 where
  pub segment : Segment
  pub points : IsIn (r.view e.1.location.pool_idx) e.1.location segment
  pub in_range : e.1.location.pool_idx < n
  pub same_camera : e.1.camera_id ≡ segment.camera_id
  pub same_start : e.1.start_ts ≡ segment.start_ts
  pub same_end : e.1.end_ts ≡ segment.end_ts

pub record Serves (ch : Chrono) (w : WriterState) (r : Ring) : Type 0 where
  pub represents : Represents ch w.store r
  pub described : All (Describes r (length w.store.pool.slots)) w.index.entries
  pub valid : IsValid w.index

-- What an entry describes in one ring it describes in another that has the segment there too.
pub Describes-move :
    (r q : Ring) (n : ℕ) (e : Entry) (d : Describes r n e)
    → IsIn (q.view e.1.location.pool_idx) e.1.location d.segment
    → Describes q n e
Describes-move r q n e d h = record {
  segment = d.segment;
  points = h;
  in_range = d.in_range;
  same_camera = d.same_camera;
  same_start = d.same_start;
  same_end = d.same_end;
}

pub stay-Describes :
    (r : Ring) (n : ℕ) (seg : Segment) (es : List Entry)
    → All (Describes r n) es
    → All (Describes (stay r seg) n) es
stay-Describes r n seg [] d = tt
stay-Describes r n seg (e ∷ es) d = (
  Describes-move r (stay r seg) n e d.0 (
      put_view-cases (λ v. IsIn v e.1.location d.0.segment) r.view r.current e.1.location.pool_idx _
        (λ i. rw i (IsIn-snoc _ _ _ seg d.0.points)) (λ i. d.0.points)),
  stay-Describes r n seg es d.1,
)

-- The entries of the pool that is taken next are evicted, and the others stay right.
pub advance-Describes :
    (r : Ring) (n : ℕ) (seg : Segment) (es : List Entry)
    → All (Describes r n) es
    → All (Describes (advance n r seg) n) (keep (λ e. not (in_pool ((r.current + 1) % n) e)) es)
advance-Describes r n seg [] d = tt
advance-Describes r n seg (e ∷ es) d = elim (Bool-cases (in_pool ((r.current + 1) % n) e)) [
  | inl t ↦ rw t (advance-Describes r n seg es d.1)
  | inr f ↦ rw f (
    Describes-move r (advance n r seg) n e d.0 (
        put_view-cases (λ v. IsIn v e.1.location d.0.segment) r.view ((r.current + 1) % n)
          e.1.location.pool_idx _ (λ i. absurd (ground arith)) (λ i. d.0.points)),
    advance-Describes r n seg es d.1,
  )
]

-- The entry of a request in the index.
pub record Filed (w : WriterState) (req : WriteRequest) : Type 0 where
  pub entry : Entry
  pub listed : Mem entry w.index.entries
  pub same_camera : entry.1.camera_id ≡ req.camera_id
  pub same_start : entry.1.start_ts ≡ req.start_ts
  pub same_end : entry.1.end_ts ≡ req.end_ts
  pub found :
      find_segment entry.1.segment_id (segments_for_camera w.index req.camera_id) ≡ some entry.1
  pub in_range : entry.1.location.pool_idx < length w.store.pool.slots
  pub readable : read_segment_data entry.1.location w.store ≡ (ok req.bytes, w.store)

-- A request that was just taken: its entry, and where the ring has its segment.
pub record Fresh (w : WriterState) (r : Ring) (req : WriteRequest) : Type 0 where
  pub filed : Filed w req
  pub points : IsIn (r.view filed.entry.1.location.pool_idx) filed.entry.1.location req
  pub in_current : filed.entry.1.location.pool_idx ≡ r.current
  pub given : filed.entry.1.segment_id < w.index.segment_counter

-- What a segment's location reads where the store represents a ring that has it there.
pub read-IsIn :
    (ch : Chrono) (s : Store) (r : Ring) (loc : SegmentLocation) (seg : Segment)
    → Represents ch s r
    → loc.pool_idx < length s.pool.slots
    → IsIn (r.view loc.pool_idx) loc seg
    → read_segment_data loc s ≡ (ok seg.bytes, s)
read-IsIn ch s r loc seg rep lt h = rw (h.pool_id_is, h.offset_is, h.size_is) at_loc
  where
    v : View
    v = r.view loc.pool_idx

    at_loc :
        read_segment_data
          (record {
            pool_idx = loc.pool_idx;
            pool_id = v.pool_id;
            record_offset = 64 + total_size h.before;
            record_size = record_size seg;
          })
          s
        ≡ (ok seg.bytes, s)
    at_loc =
        read_segment_data-Holds ch s loc.pool_idx v.pool_id h.before h.after seg
          (rw (← h.segments_are) (rep.holds loc.pool_idx lt))

-- The location gives the data of a segment with the camera and the times that are listed.
pub record IsReadable (w : WriterState) (m : SegmentMeta) : Type 0 where
  pub segment : Segment
  pub same_camera : m.camera_id ≡ segment.camera_id
  pub same_start : m.start_ts ≡ segment.start_ts
  pub same_end : m.end_ts ≡ segment.end_ts
  pub in_range : m.location.pool_idx < length w.store.pool.slots
  pub reads : read_segment_data m.location w.store ≡ (ok segment.bytes, w.store)

pub All-IsReadable :
    (ch : Chrono) (w : WriterState) (r : Ring) (es : List Entry)
    → Represents ch w.store r
    → All (Describes r (length w.store.pool.slots)) es
    → All (λ e. IsReadable w e.1) es
All-IsReadable ch w r [] rep d = tt
All-IsReadable ch w r (e ∷ es) rep d = (
  record {
    segment = d.0.segment;
    same_camera = d.0.same_camera;
    same_start = d.0.same_start;
    same_end = d.0.same_end;
    in_range = d.0.in_range;
    reads = read-IsIn ch w.store r e.1.location d.0.segment rep d.0.in_range d.0.points;
  },
  All-IsReadable ch w r es rep d.1,
)

-- While the writer's invariant holds, every entry of the index can be read: its location gives the
-- data of a segment with the entry's camera and times, and reading changes nothing.
pub Serves-IsReadable :
    (ch : Chrono) (w : WriterState) (r : Ring)
    → Serves ch w r
    → All (λ e. IsReadable w e.1) w.index.entries
Serves-IsReadable ch w r h = All-IsReadable ch w r w.index.entries h.represents h.described

-- What is listed under this id of the camera is a segment of the camera, with these times, that the
-- ring has where the location points, under the pool id that the location names.
pub record Locates (r : Ring) (n : ℕ) (camera : Text) (id : ℕ) (m : SegmentMeta) : Type 0 where
  pub of_id : m.segment_id ≡ id
  pub segment : Segment
  pub points : IsIn (r.view m.location.pool_idx) m.location segment
  pub in_range : m.location.pool_idx < n
  pub of_camera : segment.camera_id ≡ camera
  pub same_start : m.start_ts ≡ segment.start_ts
  pub same_end : m.end_ts ≡ segment.end_ts

-- A segment as an entry under its own key.
abbrev pub entry_of : SegmentMeta → Entry
entry_of m =
    (record { camera_id = m.camera_id; start_ts = m.start_ts; segment_id = m.segment_id }, m)

All-entry_of :
    (r : Ring) (n : ℕ) (es : List Entry)
    → All (Describes r n) es
    → All (λ e. Describes r n (entry_of e.1)) es
All-entry_of r n [] d = tt
All-entry_of r n (e ∷ es) d = (
  record {
    segment = d.0.segment;
    points = d.0.points;
    in_range = d.0.in_range;
    same_camera = d.0.same_camera;
    same_start = d.0.same_start;
    same_end = d.0.same_end;
  },
  All-entry_of r n es d.1,
)

-- What a lookup in such an index gives: nothing, or what the ring has.
pub find_segment-Locates :
    (r : Ring) (n : ℕ) (ix : SegmentIndex) (camera : Text) (id : ℕ)
    → All (Describes r n) ix.entries
    → (find_segment id (segments_for_camera ix camera) ≡ none)
      ⊎ ((m : SegmentMeta) × (find_segment id (segments_for_camera ix camera) ≡ some m)
          × Locates r n camera id m)
find_segment-Locates r n ix camera id d =
    elim (find_segment-Finds (λ m. Describes r n (entry_of m)) id camera ix
      (All-entry_of r n ix.entries d)) [
        | inl e ↦ inl e
        | inr f ↦ inr (
          f.0,
          f.1,
          record {
            of_id = f.2.same_id;
            segment = f.2.has.segment;
            points = f.2.has.points;
            in_range = f.2.has.in_range;
            of_camera = sym f.2.has.same_camera ∙ f.2.same_camera;
            same_start = f.2.has.same_start;
            same_end = f.2.has.same_end;
          },
        )
      ]
