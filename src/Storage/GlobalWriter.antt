-- ===== src/Storage/GlobalWriter.antt =====
-- src/storage/global_writer.rs: `writer_loop`, the one task that appends to the pool. The channel is
-- the list of the requests in the order in which they are received; the locks on the pool and on
-- the index are held by no other writer, so what the loop reads between two locks is what it left.
pub mod Steps
pub mod Serves
pub mod Refines
pub mod Loop
pub mod Retention
pub mod Restart
use oasis_nvr.Prelude.{
  ℕ, ◌+◌, ◌%◌, Bool, List, [], ◌∷◌, ltb, if◌then◌else◌, length, add64, get_elem?, ◌==◌,
}
use oasis_nvr.Chrono.{Time, Chrono}
use oasis_nvr.Outcome.{Result, ok, err, panic, ◌>>=◌}
use oasis_nvr.Storage.ChunkPool.Types.{record_header_size, SegmentLocation, ScannedRecord}
use oasis_nvr.Storage.ChunkPool.Record.{Segment, record_size}
use oasis_nvr.Storage.ChunkPool.Files.{Store}
use oasis_nvr.Storage.ChunkPool.Pool.{append, status, pool_count}
use oasis_nvr.Storage.Index
use oasis_nvr.Storage.Index.{SegmentIndex, insert, evict_pool, rebuild_from_scanned}

-- `WriteRequest` has the fields of `Segment`.
abbrev pub WriteRequest : Type 0
WriteRequest = Segment

-- What the writer shares: the pool with its files, and the index.
pub record WriterState : Type 0 where
  pub store : Store
  pub index : SegmentIndex

-- `spawn_writer`: the state that it shares, before its task has begun. The bound limits how many
-- requests wait; `channel` tells whether `mpsc::channel` accepts it, which panics where it does not.
unfoldable pub spawn_writer : (ℕ → Bool) → Store → ℕ → Result WriterState
spawn_writer channel pool channel_bound =
    if channel channel_bound then ok (record { store = pool; index = Index.new }) else panic

-- The index that the task builds before it receives requests.
unfoldable pub start_index : Result (List ScannedRecord) → Result SegmentIndex
start_index (ok records) = ok (rebuild_from_scanned Index.new records)
start_index (err e) = ok Index.new
start_index panic = panic

-- The pool whose entries go before the record is appended.
unfoldable pub evict_next : WriterState → ℕ × ℕ × ℕ → WriteRequest → Result SegmentIndex
evict_next w (cur_idx, used, cap) req =
    if ltb cap (add64 used (record_size req))
    then (if pool_count w.store.pool == 0
        then panic
        else ok (evict_pool w.index ((cur_idx + 1) % pool_count w.store.pool)))
    else ok w.index

-- What the loop does with the answer of `append`: an error is logged.
unfoldable pub record_append :
    WriteRequest → SegmentIndex → Result SegmentLocation × Store → Result WriterState
record_append req ix (ok loc, s) =
    ok (record { store = s; index = (insert ix req.camera_id req.start_ts req.end_ts loc).0 })
record_append req ix (err e, s) = ok (record { store = s; index = ix })
record_append req ix (panic, s) = panic

-- One request.
unfoldable pub write_step :
    Chrono → (ℕ → Bool) → Time → WriterState → WriteRequest → Result WriterState
write_step ch busy now w req = do
  st ← status w.store.pool
  ix ← evict_next w st req
  record_append req ix (append ch busy now req w.store)

-- The loop: request `k` finds the readers `busy k` and the clock `now k`.
unfoldable pub writer_loop :
    Chrono → (ℕ → ℕ → Bool) → (ℕ → Time) → ℕ → WriterState → List WriteRequest → Result WriterState
writer_loop ch busy now k w [] = ok w
writer_loop ch busy now k w (req ∷ reqs) = do
  w' ← write_step ch (busy k) (now k) w req
  writer_loop ch busy now (k + 1) w' reqs
