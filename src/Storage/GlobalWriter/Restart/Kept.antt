-- ===== src/Storage/GlobalWriter/Restart/Kept.antt =====
-- What a record of src/storage/chunk_pool.rs keeps of its segment: 16 bytes of the camera's id, and
-- times in whole seconds. The segment as it is kept has the same record.
use oasis_nvr.Prelude.{
  ℕ, ◌+◌, ◌≤◌, ◌≡◌, refl, ap, ap₂, ◌∙◌, true, List, [], ◌∷◌, ◌++◌, arith, All, length, take, map,
}
use oasis_nvr.Chrono.{Chrono, whole_secs}
use oasis_nvr.Utf8.{Text, is_utf8, trim_zeros}
use oasis_nvr.Utf8.Padding.{padded, trim_zeros-padded, length-trim_zeros-le}
use oasis_nvr.Storage.ChunkPool.Record.{Segment, record_size, cam_bytes, camera_text, encode_record}
use oasis_nvr.Storage.ChunkPool.Record.RoundTrip.{
  IsStorable, camera_text-cam_bytes, take_short, length-take-le,
}
use oasis_nvr.Storage.ChunkPool.Record.Scan.{layout, total_size}

abbrev pub as_kept : Segment → Segment
as_kept seg = record seg {
  camera_id = camera_text (cam_bytes seg.camera_id);
  start_ts = whole_secs seg.start_ts;
  end_ts = whole_secs seg.end_ts;
}

-- The first 16 bytes of the camera's id are UTF-8: the cut is not inside a character.
abbrev pub CutsWell : Segment → Type 0
CutsWell seg = is_utf8 (take 16 seg.camera_id) ≡ true

take-take : (id : Text) → take 16 (take 16 id) ≡ take 16 id
take-take id = take_short 16 (take 16 id) (length-take-le 16 id)

cam_bytes-padded : (id : Text) → cam_bytes id ≡ padded 16 (take 16 id)
unfolding cam_bytes
cam_bytes-padded id = refl

cam_bytes-trim_zeros : (id : Text) → length id ≤ 16 → cam_bytes (trim_zeros id) ≡ cam_bytes id
cam_bytes-trim_zeros id h =
    cam_bytes-padded (trim_zeros id)
    ∙ ap (padded 16) (take_short 16 (trim_zeros id) (omega (arith, length-trim_zeros-le id)))
    ∙ trim_zeros-padded 16 id h
    ∙ rw (cam_bytes-padded id, take_short 16 id h) refl

cam_bytes-take : (id : Text) → cam_bytes (take 16 id) ≡ cam_bytes id
cam_bytes-take id =
    cam_bytes-padded (take 16 id) ∙ ap (padded 16) (take-take id) ∙ rw (cam_bytes-padded id) refl

cam_bytes-camera_text :
    (id : Text)
    → is_utf8 (take 16 id) ≡ true
    → cam_bytes (camera_text (cam_bytes id)) ≡ cam_bytes id
cam_bytes-camera_text id u =
    let short = length-take-le 16 id in
    rw (← cam_bytes-take id, camera_text-cam_bytes (take 16 id) short u)
      (cam_bytes-trim_zeros (take 16 id) short)

module _ (ch : Chrono) where
  pub encode_record-as_kept :
      (seg : Segment) → CutsWell seg → encode_record ch (as_kept seg) ≡ encode_record ch seg
  unfolding encode_record
  encode_record-as_kept seg cut =
      rw
        (
          cam_bytes-camera_text seg.camera_id cut,
          ch.timestamp-whole_secs seg.start_ts,
          ch.timestamp-whole_secs seg.end_ts,
        )
        refl

  pub layout-as_kept :
      (ss : List Segment) (tail : List ℕ)
      → All CutsWell ss
      → layout ch (map as_kept ss) tail ≡ layout ch ss tail
  layout-as_kept [] tail cut = refl
  layout-as_kept (seg ∷ ss) tail cut =
      ap₂ ◌++◌ (encode_record-as_kept seg cut.0) (layout-as_kept ss tail cut.1)

  pub as_kept-IsStorable : (seg : Segment) → IsStorable ch seg → IsStorable ch (as_kept seg)
  as_kept-IsStorable seg fit = record {
    length_fits = fit.length_fits;
    start_fits = omega (arith, fit.start_fits);
    end_fits = omega (arith, fit.end_fits);
  }

  pub All-as_kept :
      (ss : List Segment) → All (IsStorable ch) ss → All (IsStorable ch) (map as_kept ss)
  All-as_kept [] fit = tt
  All-as_kept (seg ∷ ss) fit = (as_kept-IsStorable seg fit.0, All-as_kept ss fit.1)

pub total_size-as_kept : (ss : List Segment) → total_size (map as_kept ss) ≡ total_size ss
total_size-as_kept [] = refl
total_size-as_kept (seg ∷ ss) = ap (◌+◌ (record_size seg)) (total_size-as_kept ss)
