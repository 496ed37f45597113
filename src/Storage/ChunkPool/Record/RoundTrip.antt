-- ===== src/Storage/ChunkPool/Record/RoundTrip.antt =====
-- What the scan reads back from the bytes that `append` writes.
use oasis_nvr.Prelude.{
  ℕ, zero, suc, ◌+◌, ◌-◌, ◌^◌, ◌≤◌, ◌<◌, ◌≡◌, refl, ap, true, some, List, [], ◌∷◌, ◌++◌, arith,
  append_assoc, length, length-append, length-replicate, take, drop-append_length, replicate, add64,
  le_bytes, length-le_bytes, from_le_bytes-le_bytes, ltb-false, bytes_eq_refl, inl, inr,
}
use oasis_nvr.Chrono.{Time, Chrono, whole_secs}
use oasis_nvr.Utf8.{Text, is_utf8, trim_zeros}
use oasis_nvr.Utf8.Padding.{is_utf8-append_zeros, trim_zeros-append_zeros}
use oasis_nvr.Outcome.{Result, ok, ◌>>=◌}
use oasis_nvr.Storage.ChunkPool.Types.{ScannedRecord, record_magic, record_header_size}
use oasis_nvr.Storage.ChunkPool.Record.{
  Segment, record_size, cam_bytes, read_exact, camera_text, encode_record, read_record, scan_on,
  scan_round, scan_from,
}
use oasis_nvr.Prelude.Cases.{Option-cases}

pub read_exact-append : (xs rest : List ℕ) → read_exact (length xs) (xs ++ rest) ≡ some (xs, rest)
unfolding read_exact
read_exact-append [] rest = refl
read_exact-append (x ∷ xs) rest = rw (read_exact-append xs rest)

read_exact-field :
    (n : ℕ) (xs rest : List ℕ) → length xs ≡ n → read_exact n (xs ++ rest) ≡ some (xs, rest)
read_exact-field n xs rest e = rw (← e) (read_exact-append xs rest)

pub take_short : (n : ℕ) (xs : List ℕ) → length xs ≤ n → take n xs ≡ xs
take_short zero [] h = refl
take_short zero (x ∷ xs) h = elim h [ ]
take_short (suc n) [] h = refl
take_short (suc n) (x ∷ xs) h = ap (◌∷◌ x) (take_short n xs (omega arith))

pub length-take-le : (n : ℕ) (xs : List ℕ) → length (take n xs) ≤ n
length-take-le zero xs = omega arith
length-take-le (suc n) [] = omega arith
length-take-le (suc n) (x ∷ xs) = omega (arith, length-take-le n xs)

pub length-cam_bytes : (id : Text) → length (cam_bytes id) ≡ 16
unfolding cam_bytes
length-cam_bytes id = omega (
  arith,
  length-append (take 16 id) (replicate (16 - length (take 16 id)) 0),
  length-replicate {A = ℕ} (16 - length (take 16 id)) 0,
  length-take-le 16 id,
)

-- An id of at most 16 bytes of UTF-8 comes back without the zeros at its end.
pub camera_text-cam_bytes :
    (id : Text) → length id ≤ 16 → is_utf8 id ≡ true → camera_text (cam_bytes id) ≡ trim_zeros id
unfolding camera_text cam_bytes
camera_text-cam_bytes id h u =
    rw (take_short 16 id h, is_utf8-append_zeros id (16 - length id) u)
      (trim_zeros-append_zeros id (16 - length id))

pub read_exact-take :
    (n : ℕ) (xs got rest : List ℕ) → read_exact n xs ≡ some (got, rest) → take n xs ≡ got
unfolding read_exact
read_exact-take zero xs got rest e = ground arith
read_exact-take (suc n) [] got rest e = cc
read_exact-take (suc n) (x ∷ xs) got rest e = elim (Option-cases (read_exact n xs)) [
  | inl h ↦ ground arith
  | inr ((a, r), h) ↦ ground (arith, read_exact-take n xs a r h)
]

pub length-encode_record :
    (ch : Chrono) (s : Segment) → length (encode_record ch s) ≡ 40 + length s.bytes
unfolding encode_record
length-encode_record ch s =
    rw
      (
        length-append (cam_bytes s.camera_id),
        length-append (le_bytes 8 (ch.timestamp s.start_ts)),
        length-append (le_bytes 8 (ch.timestamp s.end_ts)),
        length-append (le_bytes 4 (length s.bytes)),
        length-cam_bytes,
        length-le_bytes,
        length-le_bytes,
        length-le_bytes,
      )
      (omega arith)

-- A segment that the format can hold: its length fits the `u32`, and its instants are chrono's.
pub record IsStorable (ch : Chrono) (s : Segment) : Type 0 where
  pub length_fits : length s.bytes < 2 ^ 32
  pub start_fits : s.start_ts ≤ ch.last_instant
  pub end_fits : s.end_ts ≤ ch.last_instant

-- What the scan reports of a segment whose record starts at `offset`.
abbrev pub recovered : ℕ → ℕ → ℕ → Segment → ScannedRecord
recovered pool_idx pool_id offset s = record {
  camera_id = camera_text (cam_bytes s.camera_id);
  start_ts = whole_secs s.start_ts;
  end_ts = whole_secs s.end_ts;
  pool_idx = pool_idx;
  pool_id = pool_id;
  record_offset = offset;
  record_size = record_size s;
}

module _ (ch : Chrono) (clock : ℕ → Time) (pool_idx pool_id limit : ℕ) where
  pub scan_from-suc :
      (fuel offset : ℕ) (file : List ℕ)
      → scan_from ch clock pool_idx pool_id limit (suc fuel) offset file
        ≡ scan_round ch clock pool_idx pool_id limit
            (scan_from ch clock pool_idx pool_id limit fuel)
            offset
            file
  unfolding scan_from
  scan_from-suc fuel offset file = refl

  -- What stands behind the magic of a record, with more of the file behind it.
  abbrev fields : Segment → List ℕ → List ℕ
  fields s rest =
      cam_bytes s.camera_id
      ++ (le_bytes 8 (ch.timestamp s.start_ts)
          ++ (le_bytes 8 (ch.timestamp s.end_ts)
              ++ (le_bytes 4 (length s.bytes) ++ (s.bytes ++ rest))))

  encode_record-append :
      (s : Segment) (rest : List ℕ) → encode_record ch s ++ rest ≡ record_magic ++ fields s rest
  unfolding encode_record
  encode_record-append s rest = simp append_assoc

  read_record-fields :
      (offset : ℕ) (s : Segment) (rest : List ℕ)
      → IsStorable ch s
      → add64 offset (record_size s) ≤ limit
      → read_record ch clock pool_idx pool_id limit offset (fields s rest)
        ≡ ok (some (recovered pool_idx pool_id offset s, s.bytes ++ rest, length s.bytes))
  unfolding read_record
  read_record-fields offset s rest fit h = rw (
    read_exact-field 16 (cam_bytes s.camera_id) _ (length-cam_bytes s.camera_id),
    read_exact-field 8 (le_bytes 8 (ch.timestamp s.start_ts)) _ (length-le_bytes 8 _),
    read_exact-field 8 (le_bytes 8 (ch.timestamp s.end_ts)) _ (length-le_bytes 8 _),
    read_exact-field 4 (le_bytes 4 (length s.bytes)) _ (length-le_bytes 4 _),
    from_le_bytes-le_bytes 8 (ch.timestamp s.start_ts) (ch.timestamp-lt s.start_ts),
    from_le_bytes-le_bytes 8 (ch.timestamp s.end_ts) (ch.timestamp-lt s.end_ts),
    from_le_bytes-le_bytes 4 (length s.bytes) (omega arith),
    ch.timestamp_opt-timestamp s.start_ts fit.start_fits,
    ch.timestamp_opt-timestamp s.end_ts fit.end_fits,
    ltb-false limit (add64 offset (record_size s)) h,
  )

  -- A round of the loop at a record reports it, and goes on behind it.
  pub scan_round-encode_record :
      (next : ℕ → List ℕ → Result (List ScannedRecord)) (offset : ℕ) (s : Segment) (rest : List ℕ)
      → IsStorable ch s
      → offset + record_size s ≤ limit
      → limit < 2 ^ 64
      → scan_round ch clock pool_idx pool_id limit next offset (encode_record ch s ++ rest) ≡ (
          next (offset + record_size s) rest >>= λ recs.
          ok (recovered pool_idx pool_id offset s ∷ recs))
  unfolding scan_round scan_on
  scan_round-encode_record next offset s rest fit h hl =
      let e : add64 offset (record_size s) ≡ offset + record_size s = omega arith in
      rw (
        encode_record-append s rest,
        ltb-false limit (add64 offset record_header_size) (omega (arith, fit.length_fits)),
        read_exact-append record_magic (fields s rest),
        bytes_eq_refl record_magic,
        read_record-fields offset s rest fit (omega arith),
        drop-append_length s.bytes rest,
        e,
      )
