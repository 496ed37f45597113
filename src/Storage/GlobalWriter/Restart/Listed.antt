-- ===== src/Storage/GlobalWriter/Restart/Listed.antt =====
-- After a restart the index misses no stored segment.
use oasis_nvr.Prelude.{
  ℕ, zero, suc, ◌+◌, ◌^◌, ◌<◌, ◌≡◌, refl, subst, ap, ◌∙◌, List, [], ◌∷◌, ◌++◌, arith, All, length,
  map, inl, inr, Bool-cases,
}
use oasis_nvr.Chrono.{Time, Chrono}
use oasis_nvr.Utf8.{Text}
use oasis_nvr.Storage.ChunkPool.Types.{SegmentLocation, ScannedRecord, PoolSlot}
use oasis_nvr.Storage.ChunkPool.Record.{Segment, record_size}
use oasis_nvr.Storage.ChunkPool.Record.RoundTrip.{recovered}
use oasis_nvr.Storage.ChunkPool.Record.Scan.{total_size, recovered_all}
use oasis_nvr.Storage.ChunkPool.Files.{Store}
use oasis_nvr.Storage.ChunkPool.Open.{at_or_before, place_record, sort_records}
use oasis_nvr.Storage.ChunkPool.Ring.{View, IsIn}
use oasis_nvr.Storage.Index
use oasis_nvr.Storage.Index.{SegmentMeta, SegmentIndex, insert, insert_scanned}
use oasis_nvr.Storage.Index.Laws.{IsValid, insert-IsValid}
use oasis_nvr.Storage.Index.Finds.{find_segment-insert, find_segment-insert_other}
use oasis_nvr.Storage.GlobalWriter.Retention.{Lists}
use oasis_nvr.Storage.GlobalWriter.Restart.{
  location_of, CleanSlots, stored_count, reported, all_reported, length-all_reported,
}
use oasis_nvr.Storage.GlobalWriter.Restart.Kept.{as_kept}
use oasis_nvr.Storage.GlobalWriter.Restart.Serving.{kept_view, rebuilt}

-- The index lists a segment of the record's camera and location.
pub record ListsRecord (ix : SegmentIndex) (r : ScannedRecord) : Type 0 where
  pub entry : SegmentMeta
  pub lists : Lists ix r.camera_id entry
  pub located : entry.location ≡ location_of r

-- What is listed stays listed when more records are inserted.
insert_scanned-Lists :
    (rs : List ScannedRecord) (ix : SegmentIndex) (camera : Text) (m : SegmentMeta)
    → IsValid ix
    → ix.segment_counter + length rs < 2 ^ 64
    → Lists ix camera m
    → Lists (insert_scanned ix rs) camera m
unfolding insert_scanned insert
insert_scanned-Lists [] ix camera m v few l = l
insert_scanned-Lists (r ∷ rs) ix camera m v few l =
    insert_scanned-Lists rs (insert ix r.camera_id r.start_ts r.end_ts (location_of r)).0 camera m
      (insert-IsValid ix r.camera_id r.start_ts r.end_ts (location_of r) (omega arith) v).0
      (omega arith)
      (record {
        found =
            find_segment-insert_other ix r.camera_id r.start_ts r.end_ts (location_of r)
              m.segment_id camera v l.given
            ∙ l.found;
        given = omega (arith, l.given);
      })

pub insert_scanned-ListsRecord :
    (rs : List ScannedRecord) (ix : SegmentIndex)
    → IsValid ix
    → ix.segment_counter + length rs < 2 ^ 64
    → All (ListsRecord (insert_scanned ix rs)) rs
unfolding insert_scanned insert
insert_scanned-ListsRecord [] ix v few = tt
insert_scanned-ListsRecord (r ∷ rs) ix v few =
    let next = (insert ix r.camera_id r.start_ts r.end_ts (location_of r)).0 in
    let valid =
      (insert-IsValid ix r.camera_id r.start_ts r.end_ts (location_of r) (omega arith) v).0 in
    let m : SegmentMeta = record {
      segment_id = ix.segment_counter;
      camera_id = r.camera_id;
      start_ts = r.start_ts;
      end_ts = r.end_ts;
      location = location_of r;
    } in
    (
      record {
        entry = m;
        lists = insert_scanned-Lists rs next r.camera_id m valid (omega arith) (record {
          found = find_segment-insert ix r.camera_id r.start_ts r.end_ts (location_of r) v;
          given = omega arith;
        });
        located = refl;
      },
      insert_scanned-ListsRecord rs next valid (omega arith),
    )

-- What holds of all sorted records holds of all records.
place_record-All :
    (P : ScannedRecord → Type 0) (r : ScannedRecord) (rs : List ScannedRecord)
    → All P (place_record r rs)
    → P r × All P rs
unfolding place_record
place_record-All P r [] h = (h.0, tt)
place_record-All P r (x ∷ xs) h = elim (Bool-cases (at_or_before r x)) [
  | inl t ↦ rw t at h
  | inr f ↦
      let g : P x × All P (place_record r xs) = rw f at h in
      let (p, rest) = place_record-All P r xs g.1 in (p, (g.0, rest))
]

pub sort_records-All :
    (P : ScannedRecord → Type 0) (rs : List ScannedRecord) → All P (sort_records rs) → All P rs
unfolding sort_records
sort_records-All P [] h = tt
sort_records-All P (r ∷ rs) h =
    let (p, rest) = place_record-All P r (sort_records rs) h in (p, sort_records-All P rs rest)

All-left : (P : ScannedRecord → Type 0) (xs ys : List ScannedRecord) → All P (xs ++ ys) → All P xs
All-left P [] ys h = tt
All-left P (x ∷ xs) ys h = (h.0, All-left P xs ys h.1)

All-right : (P : ScannedRecord → Type 0) (xs ys : List ScannedRecord) → All P (xs ++ ys) → All P ys
All-right P [] ys h = h
All-right P (x ∷ xs) ys h = All-right P xs ys h.1

-- The record of a segment that lies behind those of `before` in a pool's view.
record_at :
    (P : ScannedRecord → Type 0) (i id offset : ℕ) (ss before after : List Segment) (seg : Segment)
    → map as_kept ss ≡ before ++ (seg ∷ after)
    → All P (recovered_all i id offset ss)
    → (x : Segment) × (as_kept x ≡ seg) × P (recovered i id (offset + total_size before) x)
record_at P i id offset [] [] after seg e h = cc
record_at P i id offset [] (b ∷ before) after seg e h = cc
record_at P i id offset (x ∷ ss) [] after seg e h =
    let same : as_kept x ≡ seg = cc in
    let here : offset ≡ offset + 0 = omega arith in
    (x, same, subst (λ (o : ℕ). P (recovered i id o x)) here h.0)
record_at P i id offset (x ∷ ss) (b ∷ before) after seg e h =
    let first : as_kept x ≡ b = cc in
    let rest : map as_kept ss ≡ before ++ (seg ∷ after) = cc in
    let size : record_size x ≡ record_size b = ap record_size first in
    let (y, same, p) = record_at P i id (offset + record_size x) ss before after seg rest h.1 in
    let there : offset + record_size x + total_size before ≡ offset + total_size (b ∷ before) =
      omega (arith, size) in
    (y, same, subst (λ (o : ℕ). P (recovered i id o y)) there p)

-- What holds of all reported records holds of the record of each segment in a view.
pub view_record :
    (ch : Chrono) (clock : ℕ → Time) (s : Store) (ids : ℕ → ℕ) (P : ScannedRecord → Type 0) (i : ℕ)
    (slots : List PoolSlot) (c : CleanSlots ch clock s ids i slots) (k : ℕ)
    (before after : List Segment) (seg : Segment)
    → k < length slots
    → (kept_view ch clock s ids i slots c k).segments ≡ before ++ (seg ∷ after)
    → All P (reported ch clock s ids i slots c)
    → (x : Segment) × (as_kept x ≡ seg)
      × P (
          recovered
            (i + k)
            (kept_view ch clock s ids i slots c k).pool_id
            (64 + total_size before)
            x)
view_record ch clock s ids P i [] c k before after seg lt e h = absurd (omega arith)
view_record ch clock s ids P i (slot ∷ slots) c zero before after seg lt e h =
    let here : i ≡ i + 0 = omega arith in
    let (x, same, p) =
      record_at P i (ids i) 64 c.0.segments before after seg e
        (All-left P _ (reported ch clock s ids (suc i) slots c.1) h) in
    (x, same, subst (λ (j : ℕ). P (recovered j (ids i) (64 + total_size before) x)) here p)
view_record ch clock s ids P i (slot ∷ slots) c (suc k) before after seg lt e h =
    let next : suc i + k ≡ i + suc k = omega arith in
    let (x, same, p) =
      view_record ch clock s ids P (suc i) slots c.1 k before after seg (omega arith) e
        (All-right P (recovered_all i (ids i) 64 c.0.segments) _ h) in
    (
      x,
      same,
      subst
          (λ (j : ℕ). P (
            recovered j (kept_view ch clock s ids (suc i) slots c.1 k).pool_id
              (64 + total_size before) x))
          next p,
    )

-- The index lists a segment at its place in a pool's view.
pub record ListsAt (ix : SegmentIndex) (f : ℕ → View) (k : ℕ) (seg : Segment) : Type 0 where
  pub entry : SegmentMeta
  pub lists : Lists ix seg.camera_id entry
  pub in_pool : entry.location.pool_idx ≡ k
  pub points : IsIn (f entry.location.pool_idx) entry.location seg

-- Each stored segment is listed where it lies.
pub rebuilt-ListsAt :
    (ch : Chrono) (clock : ℕ → Time) (s : Store) (ids : ℕ → ℕ)
    (bounded : 64 + s.pool.pool_capacity < 2 ^ 63)
    (clean : CleanSlots ch clock s ids 0 s.pool.slots) (k : ℕ) (before after : List Segment)
    (seg : Segment)
    → stored_count ch clock s ids 0 s.pool.slots clean < 2 ^ 64
    → k < length s.pool.slots
    → (kept_view ch clock s ids 0 s.pool.slots clean k).segments ≡ before ++ (seg ∷ after)
    → ListsAt
        (rebuilt ch clock s ids bounded clean)
        (kept_view ch clock s ids 0 s.pool.slots clean)
        k
        seg
rebuilt-ListsAt ch clock s ids bounded clean k before after seg few lt e =
    let view = kept_view ch clock s ids 0 s.pool.slots clean in
    let ix = rebuilt ch clock s ids bounded clean in
    let all =
      insert_scanned-ListsRecord (all_reported ch clock s ids bounded clean) Index.new new_IsValid
        (omega (arith, length-all_reported ch clock s ids bounded clean)) in
    let (x, same, l) =
      view_record ch clock s ids (ListsRecord ix) 0 s.pool.slots clean k before after seg lt e
        (sort_records-All (ListsRecord ix) _ all) in
    let here : 0 + k ≡ k = omega arith in
    let idx : l.entry.location.pool_idx ≡ k = ap SegmentLocation.pool_idx l.located ∙ here in
    record {
      entry = l.entry;
      lists = subst (λ (y : Segment). Lists ix y.camera_id l.entry) same l.lists;
      in_pool = idx;
      points = record {
        before = before;
        after = after;
        segments_are = rw idx e;
        pool_id_is = rw idx (ap SegmentLocation.pool_id l.located);
        offset_is = ap SegmentLocation.record_offset l.located;
        size_is = ap SegmentLocation.record_size l.located ∙ ap record_size same;
      };
    }
  where
    new_IsValid : IsValid Index.new
    new_IsValid = record { ordered = tt; distinct = tt; filed = tt }
