-- ===== src/Storage/GlobalWriter/Restart.antt =====
-- The index with which the writer starts on the pools that a recorder left.
pub mod Started
pub mod Kept
pub mod Serving
pub mod Listed
use oasis_nvr.Prelude.{
  ℕ, zero, suc, ◌+◌, ◌^◌, ◌≤◌, ◌<◌, ◌≡◌, refl, sym, subst, ap, ◌∙◌, Bool, some, List, [], ◌∷◌, ◌++◌,
  append_assoc, arith, All, length, length-append, get_elem?, inl, inr, Bool-cases, if◌then◌else◌,
}
use oasis_nvr.Chrono.{Time, Chrono, whole_secs}
use oasis_nvr.Outcome.{Result, ok, ◌>>=◌}
use oasis_nvr.Storage.ChunkPool.Types.{SegmentLocation, ScannedRecord, PoolSlot}
use oasis_nvr.Storage.ChunkPool.Record.{Segment, record_size, cam_bytes, camera_text, scan_records}
use oasis_nvr.Storage.ChunkPool.Record.RoundTrip.{IsStorable, recovered}
use oasis_nvr.Storage.ChunkPool.Record.Scan.{layout, total_size, recovered_all, scan_records-layout}
use oasis_nvr.Storage.ChunkPool.Files.{Disk, Store}
use oasis_nvr.Storage.ChunkPool.Pool.{pool_header, read_segment_data}
use oasis_nvr.Storage.ChunkPool.Pool.Append.{Holds, total_size-snoc}
use oasis_nvr.Storage.ChunkPool.Pool.Rotate.{length-pool_header}
use oasis_nvr.Storage.ChunkPool.Pool.Read.{read_segment_data-Holds}
use oasis_nvr.Storage.ChunkPool.Open.{
  at_or_before, place_record, sort_records, scan_slots, scan_all_pools,
}
use oasis_nvr.Storage.ChunkPool.Open.Restart.{Clean, AllClean}
use oasis_nvr.Storage.Index
use oasis_nvr.Storage.Index.{
  SegmentMeta, SegmentIndex, insert, insert_scanned, rebuild_from_scanned,
}
use oasis_nvr.Storage.Index.Laws.{IsValid, All-map_insert, insert-IsValid}
use oasis_nvr.Storage.GlobalWriter.{start_index}

-- The location of a scanned record.
abbrev pub location_of : ScannedRecord → SegmentLocation
location_of r = record {
  pool_idx = r.pool_idx;
  pool_id = r.pool_id;
  record_offset = r.record_offset;
  record_size = r.record_size;
}

-- The location gives the data of a segment whose camera and times are those given, as far as a record
-- keeps them: 16 bytes of the camera's id, and times in whole seconds.
pub record Recalls (s : Store) (camera : List ℕ) (start end : Time) (loc : SegmentLocation)
    : Type 0 where
  pub segment : Segment
  pub camera_is : camera ≡ camera_text (cam_bytes segment.camera_id)
  pub start_is : start ≡ whole_secs segment.start_ts
  pub end_is : end ≡ whole_secs segment.end_ts
  pub reads : read_segment_data loc s ≡ (ok segment.bytes, s)

abbrev pub RecordOk : Store → ScannedRecord → Type 0
RecordOk s r = Recalls s r.camera_id r.start_ts r.end_ts (location_of r)

abbrev pub EntryOk : Store → SegmentMeta → Type 0
EntryOk s m = Recalls s m.camera_id m.start_ts m.end_ts m.location

pub All-append :
    (P : ScannedRecord → Type 0) (xs ys : List ScannedRecord)
    → All P xs
    → All P ys
    → All P (xs ++ ys)
All-append P [] ys a b = b
All-append P (x ∷ xs) ys a b = (a.0, All-append P xs ys a.1 b)

All-place_record :
    (P : ScannedRecord → Type 0) (r : ScannedRecord) (rs : List ScannedRecord)
    → P r
    → All P rs
    → All P (place_record r rs)
unfolding place_record
All-place_record P r [] p h = (p, tt)
All-place_record P r (x ∷ xs) p h = elim (Bool-cases (at_or_before r x)) [
  | inl t ↦ rw t (p, h)
  | inr f ↦ rw f (h.0, All-place_record P r xs p h.1)
]

pub All-sort_records :
    (P : ScannedRecord → Type 0) (rs : List ScannedRecord) → All P rs → All P (sort_records rs)
unfolding sort_records
All-sort_records P [] h = tt
All-sort_records P (r ∷ rs) h =
    All-place_record P r (sort_records rs) h.0 (All-sort_records P rs h.1)

length-place_record :
    (r : ScannedRecord) (rs : List ScannedRecord) → length (place_record r rs) ≡ suc (length rs)
unfolding place_record
length-place_record r [] = refl
length-place_record r (x ∷ xs) = elim (Bool-cases (at_or_before r x)) [
  | inl t ↦ rw t refl
  | inr f ↦ rw f (ap suc (length-place_record r xs))
]

pub length-sort_records : (rs : List ScannedRecord) → length (sort_records rs) ≡ length rs
unfolding sort_records
length-sort_records [] = refl
length-sort_records (r ∷ rs) =
    length-place_record r (sort_records rs) ∙ ap suc (length-sort_records rs)

-- The records of a pool, of which those of the segments `before` come first.
recovered_all-ok :
    (ch : Chrono) (s : Store) (i id : ℕ) (before ss : List Segment)
    → Holds ch s i id (before ++ ss)
    → All (RecordOk s) (recovered_all i id (64 + total_size before) ss)
recovered_all-ok ch s i id before [] h = tt
recovered_all-ok ch s i id before (x ∷ ss) h = (
  record {
    segment = x;
    camera_is = refl;
    start_is = refl;
    end_is = refl;
    reads = read_segment_data-Holds ch s i id before ss x h;
  },
  subst (λ (o : ℕ). All (RecordOk s) (recovered_all i id o ss)) (behind x)
      (recovered_all-ok ch s i id (before ++ (x ∷ [])) ss (rw (append_assoc before (x ∷ []) ss) h)),
)
  where
    behind :
        (y : Segment)
        → 64 + total_size (before ++ (y ∷ [])) ≡ 64 + total_size before + record_size y
    behind y = omega (arith, total_size-snoc before y)

module _ (ch : Chrono) (clock : ℕ → Time) (s : Store) (ids : ℕ → ℕ) where
  abbrev pub CleanSlots : ℕ → List PoolSlot → Type 0
  CleanSlots i slots = AllClean ch clock s.pool.pool_capacity s.disk ids i slots

  -- The number of the segments in these pools.
  abbrev pub stored_count : (i : ℕ) (slots : List PoolSlot) → CleanSlots i slots → ℕ
  stored_count i [] c = 0
  stored_count i (slot ∷ slots) c = length c.0.segments + stored_count (suc i) slots c.1

  -- What the scan reports of them, pool after pool.
  abbrev pub reported : (i : ℕ) (slots : List PoolSlot) → CleanSlots i slots → List ScannedRecord
  reported i [] c = []
  reported i (slot ∷ slots) c =
      recovered_all i (ids i) 64 c.0.segments ++ reported (suc i) slots c.1

length-recovered_all :
    (i id offset : ℕ) (ss : List Segment) → length (recovered_all i id offset ss) ≡ length ss
length-recovered_all i id offset [] = refl
length-recovered_all i id offset (x ∷ ss) =
    ap suc (length-recovered_all i id (offset + record_size x) ss)

module _ (ch : Chrono) (clock : ℕ → Time) (s : Store) (ids : ℕ → ℕ) where
  pub length-reported :
      (i : ℕ) (slots : List PoolSlot) (c : CleanSlots ch clock s ids i slots)
      → length (reported ch clock s ids i slots c) ≡ stored_count ch clock s ids i slots c
  length-reported i [] c = refl
  length-reported i (slot ∷ slots) c = omega (
    arith,
    length-append (recovered_all i (ids i) 64 c.0.segments)
        (reported ch clock s ids (suc i) slots c.1),
    length-recovered_all i (ids i) 64 c.0.segments,
    length-reported (suc i) slots c.1,
  )

  -- What holds of the records of each pool holds of all.
  pub All-reported :
      (P : ScannedRecord → Type 0) (i : ℕ) (slots : List PoolSlot)
      (c : CleanSlots ch clock s ids i slots)
      → ((k : ℕ) → get_elem? s.pool.slots (i + k) ≡ get_elem? slots k)
      → ((k : ℕ) (slot : PoolSlot) (d : Clean ch clock s.pool.pool_capacity s.disk k (ids k) slot)
          → get_elem? s.pool.slots k ≡ some slot
          → All P (recovered_all k (ids k) 64 d.segments))
      → All P (reported ch clock s ids i slots c)
  All-reported P i [] c at each = tt
  All-reported P i (slot ∷ slots) c at each =
      let next : (k : ℕ) → i + suc k ≡ suc i + k = λ k. omega arith in
      let here : i + 0 ≡ i = omega arith in
      let at_i : get_elem? s.pool.slots i ≡ some slot =
        subst (λ (x : ℕ). get_elem? s.pool.slots x ≡ some slot) here (at 0) in
      All-append P _ (reported ch clock s ids (suc i) slots c.1) (each i slot c.0 at_i)
        (All-reported P (suc i) slots c.1 (λ k. rw (← next k) (at (suc k))) each)

module _ (ch : Chrono) (clock : ℕ → Time) (s : Store) (ids : ℕ → ℕ)
    (bounded : 64 + s.pool.pool_capacity < 2 ^ 63) where
  pub clean-Holds :
      (i : ℕ) (slot : PoolSlot) (c : Clean ch clock s.pool.pool_capacity s.disk i (ids i) slot)
      → get_elem? s.pool.slots i ≡ some slot
      → Holds ch s i (ids i) c.segments
  clean-Holds i slot c at = record {
    header = pool_header ch (ids i) c.created;
    tail = c.tail;
    slot = at ∙ ap some c.slot_is;
    file = c.file;
    header_size = length-pool_header ch (ids i) c.created;
    storable = c.storable;
    fits = omega (arith, c.within);
  }

  -- The scan of these slots, the first of them number `i`.
  pub scan_slots-reported :
      (i : ℕ) (slots : List PoolSlot) (c : CleanSlots ch clock s ids i slots)
      → scan_slots ch clock s.pool.pool_capacity s.disk i slots
        ≡ ok (reported ch clock s ids i slots c)
  unfolding scan_slots
  scan_slots-reported i [] c = refl
  scan_slots-reported i (slot ∷ slots) c =
      let scanned =
        scan_records-layout ch clock i (ids i) s.pool.pool_capacity
          (pool_header ch (ids i) c.0.created) c.0.segments c.0.tail
          (length-pool_header ch (ids i) c.0.created) (omega (arith, bounded)) c.0.storable
          c.0.within c.0.ends in
      rw
        (
          scan_slots,
          c.0.file,
          ap PoolSlot.pool_id c.0.slot_is,
          scanned,
          scan_slots-reported (suc i) slots c.1,
        )
        refl

  abbrev pub all_reported : CleanSlots ch clock s ids 0 s.pool.slots → List ScannedRecord
  all_reported clean = sort_records (reported ch clock s ids 0 s.pool.slots clean)

  -- What `open_pool` hands to the index.
  pub scan_all_pools-reported :
      (clean : CleanSlots ch clock s ids 0 s.pool.slots)
      → scan_all_pools ch clock s ≡ ok (all_reported clean)
  unfolding scan_all_pools
  scan_all_pools-reported clean = rw (scan_slots-reported 0 s.pool.slots clean) refl

  pub length-all_reported :
      (clean : CleanSlots ch clock s ids 0 s.pool.slots)
      → length (all_reported clean) ≡ stored_count ch clock s ids 0 s.pool.slots clean
  length-all_reported clean =
      length-sort_records (reported ch clock s ids 0 s.pool.slots clean)
      ∙ length-reported ch clock s ids 0 s.pool.slots clean

  pub All-all_reported :
      (P : ScannedRecord → Type 0) (clean : CleanSlots ch clock s ids 0 s.pool.slots)
      → ((k : ℕ) (slot : PoolSlot) (d : Clean ch clock s.pool.pool_capacity s.disk k (ids k) slot)
          → get_elem? s.pool.slots k ≡ some slot
          → All P (recovered_all k (ids k) 64 d.segments))
      → All P (all_reported clean)
  All-all_reported P clean each =
      let zero_add : (k : ℕ) → 0 + k ≡ k = λ k. omega arith in
      All-sort_records P _ (
        All-reported ch clock s ids P 0 s.pool.slots clean
          (λ k. ap (get_elem? s.pool.slots) (zero_add k)) each)

  pub all_reported-ok :
      (clean : CleanSlots ch clock s ids 0 s.pool.slots) → All (RecordOk s) (all_reported clean)
  all_reported-ok clean =
      All-all_reported (RecordOk s) clean
        λ k slot d at. recovered_all-ok ch s k (ids k) [] d.segments (clean-Holds k slot d at)
