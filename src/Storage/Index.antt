-- ===== src/Storage/Index.antt =====
-- src/storage/index.rs: the in-memory index. The `BTreeMap` is the list of its entries in the order
-- of their keys, which is the derived order of `IndexKey`.
pub mod Laws
pub mod Finds
pub mod Ranges
pub mod Counts
pub mod Cameras
use oasis_nvr.Prelude.{
  ℕ, ◌+◌, Bool, true, false, ◌&&◌, ◌||◌, not, Option, none, some, List, [], ◌∷◌, map, ltb, ◌==◌,
  if◌then◌else◌, bytes_eq, length, keep, add64,
}
use oasis_nvr.Chrono.{Time}
use oasis_nvr.Utf8.{Text}
use oasis_nvr.Storage.ChunkPool.Types.{SegmentLocation, ScannedRecord}

pub record SegmentMeta : Type 0 where
  pub segment_id : ℕ
  pub camera_id : Text
  pub start_ts : Time
  pub end_ts : Time
  pub location : SegmentLocation

pub record IndexKey : Type 0 where
  pub camera_id : Text
  pub start_ts : Time
  pub segment_id : ℕ

abbrev pub Entry : Type 0
Entry = IndexKey × SegmentMeta

pub record SegmentIndex : Type 0 where
  pub entries : List Entry
  pub segment_counter : ℕ

-- `SegmentIndex::new`
abbrev pub new : SegmentIndex
new = record { entries = []; segment_counter = 0 }

-- `str` is ordered as its bytes are, lexicographically.
unfoldable pub text_lt : Text → Text → Bool
text_lt [] [] = false
text_lt [] (y ∷ ys) = true
text_lt (x ∷ xs) [] = false
text_lt (x ∷ xs) (y ∷ ys) = ltb x y || (x == y && text_lt xs ys)

-- `#[derive(PartialOrd, Ord)]`: the fields in their order.
unfoldable pub key_lt : IndexKey → IndexKey → Bool
key_lt a b =
    text_lt a.camera_id b.camera_id
    || (bytes_eq a.camera_id b.camera_id
        && (ltb a.start_ts b.start_ts
            || (a.start_ts == b.start_ts && ltb a.segment_id b.segment_id)))

-- `BTreeMap::insert`: a value under an equal key is replaced.
unfoldable pub map_insert : Entry → List Entry → List Entry
map_insert e [] = e ∷ []
map_insert e (f ∷ fs) =
    if key_lt e.0 f.0 then e ∷ f ∷ fs else (if key_lt f.0 e.0 then f ∷ map_insert e fs else e ∷ fs)

-- The index with the segment, and the segment's id.
unfoldable pub insert : SegmentIndex → Text → Time → Time → SegmentLocation → SegmentIndex × ℕ
insert ix camera_id start_ts end_ts location =
    let id = ix.segment_counter in
    let key : IndexKey = record { camera_id = camera_id; start_ts = start_ts; segment_id = id } in
    let meta : SegmentMeta = record {
      segment_id = id;
      camera_id = camera_id;
      start_ts = start_ts;
      end_ts = end_ts;
      location = location;
    } in
    (record { entries = map_insert (key, meta) ix.entries; segment_counter = add64 id 1 }, id)

unfoldable pub evict_pool : SegmentIndex → ℕ → SegmentIndex
evict_pool ix pool_idx = record ix {
  entries = keep (λ e. not (e.1.location.pool_idx == pool_idx)) ix.entries;
}

-- `iter().find(|s| s.segment_id == segment_id)`, as src/api.rs looks for a segment
unfoldable pub find_segment : ℕ → List SegmentMeta → Option SegmentMeta
find_segment segment_id [] = none
find_segment segment_id (s ∷ ss) =
    let rest = find_segment segment_id ss in if s.segment_id == segment_id then some s else rest

-- `entries.values()`
abbrev pub all_segments : SegmentIndex → List SegmentMeta
all_segments ix = map (λ e. e.1) ix.entries

unfoldable pub segments_for_camera : SegmentIndex → Text → List SegmentMeta
segments_for_camera ix camera_id = keep (λ m. bytes_eq m.camera_id camera_id) (all_segments ix)

unfoldable pub segments_in_range : SegmentIndex → Text → Time → Time → List SegmentMeta
segments_in_range ix camera_id from to =
    keep (λ m. bytes_eq m.camera_id camera_id && (ltb m.start_ts to && ltb from m.end_ts))
      (all_segments ix)

abbrev pub len : SegmentIndex → ℕ
len ix = length ix.entries

unfoldable pub is_empty : SegmentIndex → Bool
is_empty ix = len ix == 0

place : Text → List Text → List Text
place t [] = t ∷ []
place t (y ∷ ys) = if text_lt y t then y ∷ place t ys else t ∷ y ∷ ys

-- `Vec::sort` on texts
unfoldable pub sort_texts : List Text → List Text
unfolding place text_lt
sort_texts [] = []
sort_texts (x ∷ xs) = place x (sort_texts xs)

drop_equal : Text → List Text → List Text
drop_equal t [] = []
drop_equal t (y ∷ ys) = if bytes_eq t y then ys else y ∷ ys

-- `Vec::dedup`: of equal neighbours one stays.
unfoldable pub dedup : List Text → List Text
unfolding drop_equal
dedup [] = []
dedup (x ∷ xs) = x ∷ drop_equal x (dedup xs)

unfoldable pub cameras : SegmentIndex → List Text
cameras ix = dedup (sort_texts (map (λ m. m.camera_id) (all_segments ix)))

unfoldable pub insert_scanned : SegmentIndex → List ScannedRecord → SegmentIndex
insert_scanned ix [] = ix
insert_scanned ix (r ∷ rs) =
    insert_scanned
      (insert ix r.camera_id r.start_ts r.end_ts (record {
        pool_idx = r.pool_idx;
        pool_id = r.pool_id;
        record_offset = r.record_offset;
        record_size = r.record_size;
      })).0
      rs

-- The old entries and the counter are dropped first.
unfoldable pub rebuild_from_scanned : SegmentIndex → List ScannedRecord → SegmentIndex
unfolding insert_scanned
rebuild_from_scanned ix records = insert_scanned new records
