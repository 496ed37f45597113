-- ===== src/Storage/GlobalWriter/Steps.antt =====
-- What one request does to the pool and to the index, on each branch.
use oasis_nvr.Prelude.{
  ℕ, ◌+◌, ◌%◌, ◌^◌, ◌≤◌, ◌<◌, ◌≡◌, Bool, false, some, List, arith, ltb-false, lt→ltb, add64,
  get_elem?, length, lt_of_get_elem?, ◌==◌,
}
use oasis_nvr.Chrono.{Time, Chrono}
use oasis_nvr.Outcome.{ok}
use oasis_nvr.Storage.ChunkPool.Types.{PoolSlot}
use oasis_nvr.Storage.ChunkPool.Record.{Segment, record_size}
use oasis_nvr.Storage.ChunkPool.Record.RoundTrip.{IsStorable}
use oasis_nvr.Storage.ChunkPool.Record.Scan.{total_size}
use oasis_nvr.Storage.ChunkPool.Pool.{status, pool_count}
use oasis_nvr.Storage.ChunkPool.Pool.Append.{
  Holds, next_location, written, new_file, append-written, append-too_large,
}
use oasis_nvr.Storage.Index.{insert, evict_pool}
use oasis_nvr.Storage.GlobalWriter.{
  WriteRequest, WriterState, evict_next, record_append, write_step,
}

-- A request whose record is larger than a pool stores nothing; where the current pool would not
-- have room for it, the writer still drops the entries of the next pool from the index, though the
-- files and the pool stay as they were.
pub write_step-too_large :
    (ch : Chrono) (busy : ℕ → Bool) (now : Time) (w : WriterState) (req : WriteRequest)
    (slot : PoolSlot)
    → get_elem? w.store.pool.slots w.store.pool.write_idx ≡ some slot
    → w.store.pool.pool_capacity < record_size req
    → w.store.pool.pool_capacity < add64 slot.bytes_used (record_size req)
    → write_step ch busy now w req
      ≡ ok (record w {
        index = evict_pool w.index ((w.store.pool.write_idx + 1) % pool_count w.store.pool);
      })
unfolding write_step status evict_next record_append
write_step-too_large ch busy now w req slot at_slot large full =
    let lt = lt_of_get_elem? w.store.pool.slots w.store.pool.write_idx slot at_slot in
    let some_slots : (length w.store.pool.slots == 0) ≡ false = ground arith in
    rw (
      at_slot,
      lt→ltb w.store.pool.pool_capacity (add64 slot.bytes_used (record_size req)) full,
      some_slots,
      append-too_large ch busy now req w.store large,
    )

-- A request for which the current pool has room is appended there behind the segments that the pool
-- holds, evicts nothing, and is inserted into the index with the location of its record.
pub write_step-room :
    (ch : Chrono) (busy : ℕ → Bool) (now : Time) (w : WriterState) (req : WriteRequest)
    (pool_id : ℕ) (ss : List Segment) (h : Holds ch w.store w.store.pool.write_idx pool_id ss)
    (fit : IsStorable ch req) (room : 64 + (total_size ss + record_size req) < 2 ^ 63)
    → total_size ss + record_size req ≤ w.store.pool.pool_capacity
    → write_step ch busy now w req
      ≡ ok (record {
        store = written w.store pool_id ss req (new_file ch w.store pool_id ss req h fit room);
        index =
            (insert w.index req.camera_id req.start_ts req.end_ts
              (next_location w.store pool_id ss req)).0;
      })
unfolding write_step status evict_next record_append
write_step-room ch busy now w req pool_id ss h fit room le =
    let used : add64 (total_size ss) (record_size req) ≡ total_size ss + record_size req =
      omega arith in
    rw (
      h.slot,
      used,
      ltb-false w.store.pool.pool_capacity (total_size ss + record_size req) le,
      append-written ch w.store pool_id ss req h fit room busy now le,
    )
