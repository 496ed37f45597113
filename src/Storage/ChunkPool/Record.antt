-- ===== src/Storage/ChunkPool/Record.antt =====
-- The record format of src/storage/chunk_pool.rs: the bytes that `append` writes for a segment, and
-- the loop of `scan_records`. A file is the list of its bytes, and a reader what is left of it.
pub mod Fuel
pub mod RoundTrip
pub mod Scan
use oasis_nvr.Prelude.{
  ℕ, zero, suc, ◌+◌, ◌-◌, Option, none, some, List, [], ◌∷◌, ◌++◌, ltb, if◌then◌else◌, bytes_eq,
  length, take, drop, replicate, add64, le_bytes, from_le_bytes,
}
use mathlib.Core.Option.{get_or}
use oasis_nvr.Chrono.{Time, Chrono}
use oasis_nvr.Utf8.{Text, is_utf8, trim_zeros}
use oasis_nvr.Outcome.{NvrError, io, Result, ok, err, ◌>>=◌, or_err}
use oasis_nvr.Storage.ChunkPool.Types.{
  pool_header_size, record_header_size, record_magic, ScannedRecord,
}

-- A segment as `append` receives it.
pub record Segment : Type 0 where
  pub camera_id : Text
  pub start_ts : Time
  pub end_ts : Time
  pub bytes : List ℕ

-- `RECORD_HEADER_SIZE + data.len() as u64`
abbrev pub record_size : Segment → ℕ
record_size s = add64 record_header_size (length s.bytes)

-- `[0u8; 16]` with the first 16 bytes of the id copied in.
unfoldable pub cam_bytes : Text → List ℕ
cam_bytes id = take 16 id ++ replicate (16 - length (take 16 id)) 0

-- `Read::read_exact` on a buffer of `n` bytes: the bytes and the rest, or the end of the file.
unfoldable pub read_exact : ℕ → List ℕ → Option (List ℕ × List ℕ)
read_exact zero xs = some ([], xs)
read_exact (suc n) [] = none
read_exact (suc n) (x ∷ xs) = elim (read_exact n xs) [
  | none ↦ none
  | some (got, rest) ↦ some (x ∷ got, rest)
]

-- `std::str::from_utf8(..).unwrap_or("").trim_end_matches('\0')`
unfoldable pub camera_text : List ℕ → Text
camera_text bs = trim_zeros (if is_utf8 bs then bs else [])

module _ (ch : Chrono) where
  -- What `append` writes for one segment: the magic, the padded id, the two `i64`s and the `u32`
  -- length, little-endian, then the data.
  unfoldable pub encode_record : Segment → List ℕ
  encode_record s =
      record_magic
      ++ (cam_bytes s.camera_id
          ++ (le_bytes 8 (ch.timestamp s.start_ts)
              ++ (le_bytes 8 (ch.timestamp s.end_ts) ++ (le_bytes 4 (length s.bytes) ++ s.bytes))))

  -- `clock o` is what `Utc::now()` gives where the scan asks for it: for the start of the record at
  -- offset `o`, and for its end at `o + 1`.
  module _ (clock : ℕ → Time) (pool_idx pool_id limit : ℕ) where
    -- The body of the loop behind the magic: the record, the rest of the file behind its header,
    -- and the length of its data; `none` for a partial record.
    unfoldable pub read_record : ℕ → List ℕ → Result (Option (ScannedRecord × List ℕ × ℕ))
    read_record offset r0 = do
      (cam, r1) ← or_err (read_exact 16 r0) io
      (start_bytes, r2) ← or_err (read_exact 8 r1) io
      (end_bytes, r3) ← or_err (read_exact 8 r2) io
      (len_bytes, r4) ← or_err (read_exact 4 r3) io
      let data_len = from_le_bytes len_bytes
      let size = add64 record_header_size data_len
      ok (
          if ltb limit (add64 offset size)
          then none
          else some (
            record {
              camera_id = camera_text cam;
              start_ts = get_or (ch.timestamp_opt (from_le_bytes start_bytes)) (clock offset);
              end_ts = get_or (ch.timestamp_opt (from_le_bytes end_bytes)) (clock (offset + 1));
              pool_idx = pool_idx;
              pool_id = pool_id;
              record_offset = offset;
              record_size = size;
            },
            r4,
            data_len,
          ))

    -- The end of a round, with the record that it found; `next` is the rest of the loop.
    unfoldable pub scan_on :
        (ℕ → List ℕ → Result (List ScannedRecord))
        → ℕ
        → Option (ScannedRecord × List ℕ × ℕ)
        → Result (List ScannedRecord)
    scan_on next offset none = ok []
    scan_on next offset (some (rec, rest, data_len)) = do
      recs ← next (add64 offset rec.record_size) (drop data_len rest)
      ok (rec ∷ recs)

    -- One round of the loop of `scan_records`.
    unfoldable pub scan_round :
        (ℕ → List ℕ → Result (List ScannedRecord)) → ℕ → List ℕ → Result (List ScannedRecord)
    scan_round next offset file =
        if ltb limit (add64 offset record_header_size) then ok [] else elim (read_exact 4 file) [
          | none ↦ ok []
          | some (magic, r) ↦
              if bytes_eq magic record_magic
              then read_record offset r >>= scan_on next offset
              else ok []
        ]

    -- The loop of `scan_records`. Each round that goes on takes at least 40 bytes off the file, so
    -- its length is fuel enough; at none left the source stops too, as no magic can be read.
    unfoldable pub scan_from : ℕ → ℕ → List ℕ → Result (List ScannedRecord)
    scan_from zero offset file = ok []
    scan_from (suc fuel) offset file = scan_round (scan_from fuel) offset file

  -- `scan_records` on the bytes of a file that could be opened.
  unfoldable pub scan_records : (ℕ → Time) → ℕ → ℕ → ℕ → List ℕ → Result (List ScannedRecord)
  scan_records clock pool_idx pool_id pool_capacity file =
      let body = drop pool_header_size file in
      scan_from clock pool_idx pool_id (add64 pool_header_size pool_capacity) (length body)
        pool_header_size body
