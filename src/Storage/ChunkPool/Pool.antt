-- ===== src/Storage/ChunkPool/Pool.antt =====
-- `ChunkPool` of src/storage/chunk_pool.rs: `append`, `rotate`, `write_pool_header`, `status` and
-- the reads.
pub mod Append
pub mod Rotate
pub mod Read
use oasis_nvr.Prelude.{
  ℕ, zero, suc, ◌+◌, ◌-◌, ◌%◌, ◌^◌, Bool, true, false, Option, none, some, List, [], ◌∷◌, ◌++◌, ltb,
  ◌==◌, if◌then◌else◌, bytes_eq, length, drop, replicate, add64, le_bytes, from_le_bytes, get_elem?,
}
use oasis_nvr.Chrono.{Time, Chrono}
use oasis_nvr.Outcome.{
  NvrError, io, storage, segment_too_large, Result, ok, err, panic, or_err, or_panic,
}
use oasis_nvr.Outcome
use oasis_nvr.Storage.ChunkPool.Types.{
  pool_magic, pool_header_size, record_header_size, SegmentLocation, ScannedRecord, PoolSlot,
  ChunkPool,
}
use oasis_nvr.Storage.ChunkPool.Record.{
  Segment, record_size, read_exact, encode_record, scan_records,
}
use oasis_nvr.Storage.ChunkPool.Files.{
  Disk, Store, M, pure, raise, lift, ◌>>=◌, ◌>>◌, get_pool, put_pool, raise_if, slot_at, put_slot,
  write_file, open_file,
}

-- The 64 bytes of a pool header.
unfoldable pub pool_header : Chrono → ℕ → Time → List ℕ
pool_header ch pool_id now =
    pool_magic ++ (le_bytes 8 pool_id ++ (le_bytes 8 (ch.timestamp now) ++ replicate 40 0))

unfoldable pub write_pool_header : Chrono → Time → ℕ → M (Unit {0})
write_pool_header ch now idx = do
  slot ← slot_at idx
  write_file idx 0 (pool_header ch slot.pool_id now)

-- `while has_readers && waited < 50 { sleep; waited += 1 }` from round `waited` on, with `left`
-- rounds to go. `busy k` is the answer to the question asked the k-th time, counting from 0.
unfoldable pub wait_from : (ℕ → Bool) → ℕ → ℕ → ℕ
wait_from busy zero waited = waited
wait_from busy (suc left) waited =
    let later = wait_from busy left (suc waited) in if busy waited then later else waited

-- The number of rounds that `rotate` waits, and whether it goes on despite readers.
abbrev pub Waiting : Type 0
Waiting = ℕ × Bool

unfoldable pub wait_for_readers : (ℕ → Bool) → Waiting
unfolding wait_from
wait_for_readers busy = let waited = wait_from busy 50 0 in (waited, busy (suc waited))

unfoldable pub rotate : Chrono → (ℕ → Bool) → Time → M Waiting
rotate ch busy now = do
  p ← get_pool
  lift {0} (if length p.slots == 0 then panic else ok (tt {0}))
  let idx = (p.write_idx + 1) % length p.slots
  put_pool (record p { write_idx = idx })
  slot ← slot_at idx
  put_slot idx (record { pool_id = add64 slot.pool_id (length p.slots); bytes_used = 0 })
  write_pool_header ch now idx
  pure (wait_for_readers busy)

-- What `append` does with the slot that it found room in.
unfoldable pub write_record : Chrono → Segment → M SegmentLocation
write_record ch seg = do
  p ← get_pool
  slot ← slot_at p.write_idx
  let offset = add64 pool_header_size slot.bytes_used
  write_file p.write_idx offset (encode_record ch seg)
  put_slot p.write_idx (record slot { bytes_used = add64 slot.bytes_used (record_size seg) })
  pure (record {
    pool_idx = p.write_idx;
    pool_id = slot.pool_id;
    record_offset = offset;
    record_size = record_size seg;
  })

-- Rotate if the current pool has no room.
unfoldable pub make_room : Chrono → (ℕ → Bool) → Time → ℕ → M (Unit {0})
make_room ch busy now size = do
  p ← get_pool
  slot ← slot_at p.write_idx
  if ltb p.pool_capacity (add64 slot.bytes_used size)
      then (rotate ch busy now >> pure tt)
      else pure tt

unfoldable pub append : Chrono → (ℕ → Bool) → Time → Segment → M SegmentLocation
append ch busy now seg = do
  p ← get_pool
  raise_if (ltb p.pool_capacity (record_size seg))
      (storage (segment_too_large (record_size seg) p.pool_capacity))
  make_room ch busy now (record_size seg)
  write_record ch seg

-- The write index, the bytes used there, and the capacity.
unfoldable pub status : ChunkPool → Result (ℕ × ℕ × ℕ)
status p =
    Outcome.◌>>=◌ (or_panic (get_elem? p.slots p.write_idx))
      λ slot. ok (p.write_idx, slot.bytes_used, p.pool_capacity)

abbrev pub pool_count : ChunkPool → ℕ
pool_count p = length p.slots

-- The data of the segment at a location; a file that ends before it is an I/O error.
unfoldable pub read_segment_data : SegmentLocation → M (List ℕ)
read_segment_data loc = do
  slot ← slot_at loc.pool_idx
  file ← open_file loc.pool_idx
  let offset = add64 loc.record_offset record_header_size
  let len = (loc.record_size + 2 ^ 64 - record_header_size) % 2 ^ 64
  (got, rest) ← lift (or_err (read_exact len (drop offset file)) io)
  pure got
