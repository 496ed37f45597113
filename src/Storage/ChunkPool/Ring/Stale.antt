-- ===== src/Storage/ChunkPool/Ring/Stale.antt =====
-- What a scan finds in a pool that the ring has come round to: `rotate` and `append` of
-- src/storage/chunk_pool.rs, and then `scan_records`.
use oasis_nvr.Prelude.{
  ℕ, ◌+◌, ◌^◌, ◌≤◌, ◌<◌, ◌≡◌, ◌≢◌, refl, ap, ◌∙◌, Bool, some, List, [], ◌∷◌, ◌++◌, arith, take,
  drop, length, All, add64, get_elem?, get_elem?-set_self, lt_of_get_elem?, lt→ltb, ltb-false,
  ==_self, drop-append_length,
}
use oasis_nvr.Chrono.{Time, Chrono}
use oasis_nvr.Outcome.{ok}
use oasis_nvr.Storage.ChunkPool.Types.{PoolSlot}
use oasis_nvr.Storage.ChunkPool.Record.{Segment, record_size, encode_record, scan_records}
use oasis_nvr.Storage.ChunkPool.Record.RoundTrip.{IsStorable, length-encode_record}
use oasis_nvr.Storage.ChunkPool.Record.Scan.{layout, total_size, recovered_all, scan_records-layout}
use oasis_nvr.Storage.ChunkPool.Types.{record_magic}
use oasis_nvr.Storage.ChunkPool.Files.{Store}
use oasis_nvr.Storage.ChunkPool.Pool.{append, make_room, pool_header}
use oasis_nvr.Storage.ChunkPool.Pool.Append.{
  Holds, written, new_file, next_location, write_record-written,
}
use oasis_nvr.Storage.ChunkPool.Pool.Rotate.{next_idx, rotated, rotate-rotated, length-pool_header}

-- The store before: the current slot has no room for the segment, and the file of the next slot has
-- the records of an earlier lap, the first of them as long as the segment's.
pub record ComesRound (ch : Chrono) (s : Store) (seg over : Segment) (stale : List Segment)
    : Type 0 where
  pub current : PoolSlot
  pub next : PoolSlot
  pub header : List ℕ
  pub tail : List ℕ
  pub at_current : get_elem? s.pool.slots s.pool.write_idx ≡ some current
  pub at_next : get_elem? s.pool.slots (next_idx s) ≡ some next
  pub file : s.disk (next_idx s) ≡ some (header ++ layout ch (over ∷ stale) tail)
  pub header_size : length header ≡ 64
  pub storable : All (IsStorable ch) (seg ∷ over ∷ stale)
  pub full : s.pool.pool_capacity < current.bytes_used + record_size seg
  pub no_wrap : current.bytes_used + record_size seg < 2 ^ 64
  pub within : total_size (over ∷ stale) ≤ s.pool.pool_capacity
  pub bounded : 64 + s.pool.pool_capacity < 2 ^ 63
  pub alike : record_size seg ≡ record_size over
  pub no_magic : take 4 tail ≢ record_magic

module _ (ch : Chrono) (busy : ℕ → Bool) (now : Time) (s : Store) (seg over : Segment)
    (stale : List Segment) (h : ComesRound ch s seg over stale) where
  abbrev new_id : ℕ
  new_id = add64 h.next.pool_id (length s.pool.slots)

  abbrev after_rotate : Store
  after_rotate = rotated ch now s h.next.pool_id (layout ch (over ∷ stale) h.tail)

  empty-Holds : Holds ch after_rotate after_rotate.pool.write_idx new_id []
  empty-Holds = record {
    header = pool_header ch new_id now;
    tail = layout ch (over ∷ stale) h.tail;
    slot =
        get_elem?-set_self s.pool.slots (next_idx s) _
          (lt_of_get_elem? s.pool.slots (next_idx s) _ h.at_next);
    file = rw (==_self (next_idx s)) refl;
    header_size = length-pool_header ch new_id now;
    storable = tt;
    fits = omega arith;
  }

  room : 64 + (0 + record_size seg) < 2 ^ 63
  room = omega (arith, h.bounded, h.within, h.alike)

  abbrev file_after : List ℕ
  file_after = new_file ch after_rotate new_id [] seg empty-Holds h.storable.0 room

  append-opens : append ch busy now seg s ≡ (
    ok (next_location after_rotate new_id [] seg),
    written after_rotate new_id [] seg file_after,
  )
  unfolding append make_room
  append-opens =
      let sum : add64 h.current.bytes_used (record_size seg)
          ≡ h.current.bytes_used + record_size seg =
        omega (arith, h.no_wrap) in
      rw
        (
          ltb-false s.pool.pool_capacity (record_size seg) (omega (arith, h.within, h.alike)),
          h.at_current,
          sum,
          lt→ltb s.pool.pool_capacity (h.current.bytes_used + record_size seg) h.full,
          rotate-rotated ch busy now s h.next h.header (layout ch (over ∷ stale) h.tail) h.at_next
              h.file h.header_size,
        )
        (write_record-written ch after_rotate new_id [] seg empty-Holds h.storable.0 room)

  file_after-layout : file_after ≡ pool_header ch new_id now ++ layout ch (seg ∷ stale) h.tail
  unfolding empty-Holds pool_header
  file_after-layout =
      let same : length (encode_record ch seg) ≡ length (encode_record ch over) = omega (
        arith,
        h.alike,
        length-encode_record ch seg,
        length-encode_record ch over,
        h.storable.0.length_fits,
        h.storable.1.0.length_fits,
      ) in
      ap (λ xs. pool_header ch new_id now ++ (encode_record ch seg ++ xs))
        (ap (λ (n : ℕ). drop n (layout ch (over ∷ stale) h.tail)) same
          ∙ drop-append_length (encode_record ch over) (layout ch stale h.tail))

  -- Records of an earlier lap come back. When `append` takes the next pool, and the first record there
  -- is as long as the new one, then the slot counts the new record only, but a scan of its file
  -- reports behind it all the others of the earlier lap, under the new pool id.
  pub append-scan_records :
      (clock : ℕ → Time)
      → (file : List ℕ) × ((append ch busy now seg s).1.disk (next_idx s) ≡ some file)
        × (get_elem? (append ch busy now seg s).1.pool.slots (next_idx s)
            ≡ some (record { pool_id = new_id; bytes_used = record_size seg }))
        × (scan_records ch clock (next_idx s) new_id s.pool.pool_capacity file
            ≡ ok (recovered_all (next_idx s) new_id 64 (seg ∷ stale)))
  append-scan_records clock = (
    file_after,
    rw (append-opens, ==_self (next_idx s)) refl,
    rw append-opens (
        get_elem?-set_self after_rotate.pool.slots (next_idx s) _
          (lt_of_get_elem? after_rotate.pool.slots (next_idx s) _ empty-Holds.slot)
        ∙ ap (λ (n : ℕ). some (record { pool_id = new_id; bytes_used = n })) alone),
    rw file_after-layout (
        scan_records-layout ch clock (next_idx s) new_id s.pool.pool_capacity
          (pool_header ch new_id now) (seg ∷ stale) h.tail (length-pool_header ch new_id now)
          (omega (arith, h.bounded)) (h.storable.0, h.storable.1.1)
          (omega (arith, h.within, h.alike)) h.no_magic),
  )
    where
      alone : 0 + record_size seg ≡ record_size seg
      alone = omega arith
