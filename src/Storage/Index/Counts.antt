-- ===== src/Storage/Index/Counts.antt =====
-- How many segments of a camera the rebuilt index of src/storage/index.rs lists.
use oasis_nvr.Prelude.{
  ℕ, ◌+◌, ◌^◌, ◌<◌, ◌≡◌, List, [], ◌∷◌, map, arith, keep, length, All, bytes_eq, if◌then◌else◌, inl,
  inr, Bool-cases,
}
use oasis_nvr.Utf8.{Text}
use oasis_nvr.Storage.ChunkPool.Types.{SegmentLocation, ScannedRecord}
use oasis_nvr.Storage.Index.{
  Entry, SegmentIndex, key_lt, map_insert, insert, insert_scanned, segments_for_camera,
}
use oasis_nvr.Storage.Index.Laws.{IsFiled, IsValid, key_lt_total, insert-IsValid}

abbrev one_of : Text → Text → ℕ
one_of camera id = if bytes_eq id camera then 1 else 0

abbrev count : Text → List Entry → ℕ
count camera es = length (keep (λ m. bytes_eq m.camera_id camera) (map (λ e. e.1) es))

count-cons :
    (camera : Text) (e : Entry) (es : List Entry)
    → count camera (e ∷ es) ≡ one_of camera e.1.camera_id + count camera es
count-cons camera e es = elim (Bool-cases (bytes_eq e.1.camera_id camera)) [
  | inl t ↦ rw t (omega arith)
  | inr f ↦ rw f (omega arith)
]

-- An entry with a new id replaces no other.
count-map_insert :
    (camera : Text) (e : Entry) (es : List Entry)
    → All (IsFiled e.0.segment_id) es
    → count camera (map_insert e es) ≡ one_of camera e.1.camera_id + count camera es
unfolding map_insert
count-map_insert camera e [] fresh = count-cons camera e []
count-map_insert camera e (f ∷ fs) fresh = elim (Bool-cases (key_lt e.0 f.0)) [
  | inl lt ↦ rw lt (count-cons camera e (f ∷ fs))
  | inr ge ↦ rw ge (elim (Bool-cases (key_lt f.0 e.0)) [
    | inl gt ↦ rw gt (
        omega (
          arith,
          count-cons camera f (map_insert e fs),
          count-cons camera f fs,
          count-map_insert camera e fs fresh.1,
        ))
    | inr eq ↦ absurd (omega (arith, key_lt_total e.0 f.0 ge eq, fresh.0.given))
  ])
]

-- Every record that is inserted adds one segment of its camera, and none of another.
pub length-segments_for_camera-insert_scanned :
    (camera : Text) (rs : List ScannedRecord) (ix : SegmentIndex)
    → IsValid ix
    → ix.segment_counter + length rs < 2 ^ 64
    → length (segments_for_camera (insert_scanned ix rs) camera)
      ≡ length (segments_for_camera ix camera) + length (keep (λ r. bytes_eq r.camera_id camera) rs)
unfolding segments_for_camera insert_scanned insert
length-segments_for_camera-insert_scanned camera [] ix v few = omega arith
length-segments_for_camera-insert_scanned camera (r ∷ rs) ix v few =
    let loc : SegmentLocation = record {
      pool_idx = r.pool_idx;
      pool_id = r.pool_id;
      record_offset = r.record_offset;
      record_size = r.record_size;
    } in
    let rest =
      length-segments_for_camera-insert_scanned camera rs
        (insert ix r.camera_id r.start_ts r.end_ts loc).0
        (insert-IsValid ix r.camera_id r.start_ts r.end_ts loc (omega arith) v).0 (omega arith) in
    let entry : Entry = (
      record { camera_id = r.camera_id; start_ts = r.start_ts; segment_id = ix.segment_counter },
      record {
        segment_id = ix.segment_counter;
        camera_id = r.camera_id;
        start_ts = r.start_ts;
        end_ts = r.end_ts;
        location = loc;
      },
    ) in
    let new = count-map_insert camera entry ix.entries v.filed in
    elim (Bool-cases (bytes_eq r.camera_id camera)) [
      | inl t ↦ rw t (omega (arith, rest, rw t at new))
      | inr f ↦ rw f (omega (arith, rest, rw f at new))
    ]
