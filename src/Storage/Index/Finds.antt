-- ===== src/Storage/Index/Finds.antt =====
-- Looking for a segment of a camera by its id.
use oasis_nvr.Prelude.{
  ℕ, ◌≡◌, ◌≢◌, ◌<◌, not, refl, false, Option, none, some, List, [], ◌∷◌, arith, map, ◌==◌, ==_self,
  ◌⊎◌, bytes_eq, bytes_eq_refl, bytes_eq→eq, keep, All, inl, inr, Bool-cases,
}
use oasis_nvr.Chrono.{Time}
use oasis_nvr.Utf8.{Text}
use oasis_nvr.Storage.ChunkPool.Types.{SegmentLocation}
use oasis_nvr.Storage.Index.{
  SegmentMeta, Entry, SegmentIndex, key_lt, map_insert, insert, evict_pool, segments_for_camera,
  find_segment,
}
use oasis_nvr.Storage.Index.Laws.{IsFiled, IsValid, key_lt_total, in_pool}

-- The segments of a camera among some entries.
abbrev of_camera : Text → List Entry → List SegmentMeta
of_camera camera es = keep (λ m. bytes_eq m.camera_id camera) (map (λ e. e.1) es)

find-ne :
    (id : ℕ) (camera : Text) (e : Entry) (es : List Entry)
    → e.1.segment_id ≢ id
    → find_segment id (of_camera camera (e ∷ es)) ≡ find_segment id (of_camera camera es)
unfolding find_segment
find-ne id camera e es ne = elim (Bool-cases (bytes_eq e.1.camera_id camera)) [
  | inl c ↦ let other : (e.1.segment_id == id) ≡ false = ground arith in rw (c, other) refl
  | inr c ↦ rw c refl
]

find-here :
    (e : Entry) (es : List Entry)
    → find_segment e.1.segment_id (of_camera e.1.camera_id (e ∷ es)) ≡ some e.1
unfolding find_segment
find-here e es = rw (bytes_eq_refl e.1.camera_id, ==_self e.1.segment_id) refl

find-map_insert :
    (e : Entry) (es : List Entry)
    → All (IsFiled e.1.segment_id) es
    → find_segment e.1.segment_id (of_camera e.1.camera_id (map_insert e es)) ≡ some e.1
unfolding map_insert
find-map_insert e [] fresh = find-here e []
find-map_insert e (f ∷ fs) fresh = elim (Bool-cases (key_lt e.0 f.0)) [
  | inl lt ↦ rw lt (find-here e (f ∷ fs))
  | inr ge ↦ rw ge (elim (Bool-cases (key_lt f.0 e.0)) [
    | inl gt ↦
        rw
          (
            gt,
            find-ne e.1.segment_id e.1.camera_id f (map_insert e fs)
                (λ q. omega (arith, fresh.0.same_id, fresh.0.given)),
          )
          (find-map_insert e fs fresh.1)
    | inr eq ↦ rw eq (find-here e fs)
  ])
]

-- A segment that was just inserted is found among its camera's segments by the id that it was given.
pub find_segment-insert :
    (ix : SegmentIndex) (camera_id : Text) (start_ts end_ts : Time) (location : SegmentLocation)
    → IsValid ix
    → find_segment ix.segment_counter
        (segments_for_camera (insert ix camera_id start_ts end_ts location).0 camera_id)
      ≡ some (record {
        segment_id = ix.segment_counter;
        camera_id = camera_id;
        start_ts = start_ts;
        end_ts = end_ts;
        location = location;
      })
unfolding insert segments_for_camera
find_segment-insert ix camera_id start_ts end_ts location v = find-map_insert _ ix.entries v.filed

-- What is found of a camera's segments is one of the camera's, with the id, and has what all the
-- entries have.
pub record Found {κ} (P : SegmentMeta → Type κ) (id : ℕ) (camera : Text) (s : SegmentMeta)
    : Type κ where
  pub has : P s
  pub same_id : s.segment_id ≡ id
  pub same_camera : s.camera_id ≡ camera

-- Either nothing is found, or a segment with these properties.
abbrev pub Finds {κ} : (SegmentMeta → Type κ) → ℕ → Text → Option SegmentMeta → Type κ
Finds P id camera r = (r ≡ none) ⊎ ((s : SegmentMeta) × (r ≡ some s) × Found P id camera s)

find-Finds {κ} :
    (P : SegmentMeta → Type κ) (id : ℕ) (camera : Text) (es : List Entry)
    → All (λ e. P e.1) es
    → Finds P id camera (find_segment id (of_camera camera es))
unfolding find_segment
find-Finds P id camera [] h = inl refl
find-Finds P id camera (e ∷ es) h = elim (Bool-cases (bytes_eq e.1.camera_id camera)) [
  | inr c ↦ rw c (find-Finds P id camera es h.1)
  | inl c ↦ rw c (elim (Bool-cases (e.1.segment_id == id)) [
    | inr i ↦ rw i (find-Finds P id camera es h.1)
    | inl i ↦ rw i (
        inr (
          e.1,
          refl,
          record {
            has = h.0;
            same_id = ground arith;
            same_camera = bytes_eq→eq e.1.camera_id camera c;
          },
        ))
  ])
]

pub find_segment-Finds {κ} :
    (P : SegmentMeta → Type κ) (id : ℕ) (camera : Text) (ix : SegmentIndex)
    → All (λ e. P e.1) ix.entries
    → Finds P id camera (find_segment id (segments_for_camera ix camera))
unfolding segments_for_camera
find_segment-Finds P id camera ix h = find-Finds P id camera ix.entries h

-- An entry that is put before some others counts only if it is the one that is looked for.
find-cons :
    (id : ℕ) (camera : Text) (e : Entry) (xs ys : List Entry)
    → find_segment id (of_camera camera xs) ≡ find_segment id (of_camera camera ys)
    → find_segment id (of_camera camera (e ∷ xs)) ≡ find_segment id (of_camera camera (e ∷ ys))
unfolding find_segment
find-cons id camera e xs ys h = elim (Bool-cases (bytes_eq e.1.camera_id camera)) [
  | inr c ↦ rw c h
  | inl c ↦ rw (c, h) refl
]

find-map_insert_other :
    (id : ℕ) (camera : Text) (e : Entry) (es : List Entry)
    → e.1.segment_id ≢ id
    → e.0.segment_id ≡ e.1.segment_id
    → All (IsFiled e.1.segment_id) es
    → find_segment id (of_camera camera (map_insert e es)) ≡ find_segment id (of_camera camera es)
unfolding map_insert
find-map_insert_other id camera e [] ne same fresh = find-ne id camera e [] ne
find-map_insert_other id camera e (f ∷ fs) ne same fresh = elim (Bool-cases (key_lt e.0 f.0)) [
  | inl lt ↦ rw lt (find-ne id camera e (f ∷ fs) ne)
  | inr ge ↦ rw ge (elim (Bool-cases (key_lt f.0 e.0)) [
    | inl gt ↦ rw gt (
        find-cons id camera f (map_insert e fs) fs
          (find-map_insert_other id camera e fs ne same fresh.1))
    | inr eq ↦ absurd (omega (arith, key_lt_total e.0 f.0 ge eq, fresh.0.given))
  ])
]

-- A segment is found as before once another is inserted.
pub find_segment-insert_other :
    (ix : SegmentIndex) (camera_id : Text) (start_ts end_ts : Time) (location : SegmentLocation)
    (id : ℕ) (camera : Text)
    → IsValid ix
    → id < ix.segment_counter
    → find_segment id (segments_for_camera (insert ix camera_id start_ts end_ts location).0 camera)
      ≡ find_segment id (segments_for_camera ix camera)
unfolding insert segments_for_camera
find_segment-insert_other ix camera_id start_ts end_ts location id camera v lt =
    find-map_insert_other id camera _ ix.entries (λ e. omega arith) refl v.filed

find-keep :
    (id p : ℕ) (camera : Text) (m : SegmentMeta) (es : List Entry)
    → m.location.pool_idx ≢ p
    → find_segment id (of_camera camera es) ≡ some m
    → find_segment id (of_camera camera (keep (λ e. not (in_pool p e)) es)) ≡ some m
unfolding find_segment
find-keep id p camera m [] ne h = h
find-keep id p camera m (e ∷ es) ne h = elim (Bool-cases (bytes_eq e.1.camera_id camera)) [
  | inr c ↦
      let rest = find-keep id p camera m es ne (rw c at h) in
      elim (Bool-cases (in_pool p e)) [ inl t ↦ rw t rest | inr f ↦ rw (f, c) rest ]
  | inl c ↦ elim (Bool-cases (e.1.segment_id == id)) [
    | inl i ↦
        let found : some e.1 ≡ some m = rw (c, i) at h in
        let same : e.1 ≡ m = cc in
        let stays : in_pool p e ≡ false = rw same (==_ne m.location.pool_idx p ne) in
        rw (stays, c, i) found
    | inr i ↦
        let rest = find-keep id p camera m es ne (rw (c, i) at h) in
        elim (Bool-cases (in_pool p e)) [ inl t ↦ rw t rest | inr f ↦ rw (f, c, i) rest ]
  ]
]
  where
    ==_ne : (i j : ℕ) → i ≢ j → (i == j) ≡ false
    ==_ne i j q = ground arith

-- Evicting a pool does not lose the segments of the others.
pub find_segment-evict_pool :
    (ix : SegmentIndex) (p id : ℕ) (camera : Text) (m : SegmentMeta)
    → m.location.pool_idx ≢ p
    → find_segment id (segments_for_camera ix camera) ≡ some m
    → find_segment id (segments_for_camera (evict_pool ix p) camera) ≡ some m
unfolding segments_for_camera evict_pool
find_segment-evict_pool ix p id camera m ne h = find-keep id p camera m ix.entries ne h
