-- ===== src/Storage/ChunkPool/Open.antt =====
-- `ChunkPool::open`, `read_pool_header` and `scan_all_pools` of src/storage/chunk_pool.rs.
pub mod Resume
pub mod Restart
use oasis_nvr.Prelude.{
  ℕ, zero, suc, ◌+◌, ◌*◌, Bool, true, false, Option, none, some, List, [], ◌∷◌, ◌++◌, ltb, leb,
  ◌==◌, ◌&&◌, ◌||◌, if◌then◌else◌, bytes_eq, length, replicate, add64, from_le_bytes,
}
use oasis_nvr.Chrono.{Time, Chrono}
use oasis_nvr.Outcome.{io, storage, cannot_open, Result, ok, err, panic, ◌>>=◌, or_err}
use oasis_nvr.Storage.ChunkPool.Types.{
  pool_magic, pool_header_size, ScannedRecord, PoolSlot, ChunkPool,
}
use oasis_nvr.Storage.ChunkPool.Record.{read_exact, scan_records}
use oasis_nvr.Storage.ChunkPool.Files.{Disk, Store, write_disk}
use oasis_nvr.Storage.ChunkPool.Pool.{write_pool_header}

-- The pool id and the time of creation; without the magic, zeros.
unfoldable pub read_pool_header : List ℕ → Result (ℕ × ℕ)
read_pool_header file = do
  (magic, r) ← or_err (read_exact 8 file) io
  if bytes_eq magic pool_magic
      then (do
        (id, r1) ← or_err (read_exact 8 r) io
        (created, r2) ← or_err (read_exact 8 r1) io
        ok (from_le_bytes id, from_le_bytes created))
      else ok (0, 0)

abbrev pub sum_sizes : List ScannedRecord → ℕ
sum_sizes [] = 0
sum_sizes (r ∷ rs) = add64 r.record_size (sum_sizes rs)

-- The variables of the loop of `open`, and the disk.
pub record OpenState : Type 0 where
  pub slots : List PoolSlot
  pub best_idx : ℕ
  pub best_pool_id : ℕ
  pub any_existing : Bool
  pub disk : Disk

module _ (ch : Chrono) (clock : ℕ → Time) (pool_size : ℕ) where
  -- A file that is missing is made of zeros; one that is there is read and scanned.
  unfoldable pub open_slot : ℕ → OpenState → Result OpenState
  open_slot i s = elim (s.disk i) [
    | none ↦ ok (record s {
      slots = s.slots ++ (record { pool_id = i; bytes_used = 0 } ∷ []);
      disk = write_disk s.disk i (replicate (add64 pool_header_size pool_size) 0);
    })
    | some file ↦ do
      (pid, created) ← read_pool_header file
      records ← scan_records ch clock i pid pool_size file
      ok (record s {
        slots = s.slots ++ (record { pool_id = pid; bytes_used = sum_sizes records } ∷ []);
        best_idx = if leb s.best_pool_id pid then i else s.best_idx;
        best_pool_id = if leb s.best_pool_id pid then pid else s.best_pool_id;
        any_existing = true;
      })
  ]

  -- `for i in 0..max_pools`, from `i` on with `left` rounds to go.
  unfoldable pub open_loop : ℕ → ℕ → OpenState → Result OpenState
  open_loop zero i s = ok s
  open_loop (suc left) i s = open_slot i s >>= open_loop left (suc i)

  -- The directory is there or can be made.
  unfoldable pub open_pool : Time → Disk → ℕ → Result Store
  open_pool now disk max_pools = do
    s ←
        open_loop max_pools 0
          (record { slots = []; best_idx = 0; best_pool_id = 0; any_existing = false; disk = disk })
    let store : Store = record {
      pool = record {
        pool_capacity = pool_size;
        slots = s.slots;
        write_idx = if s.any_existing then s.best_idx else 0;
      };
      disk = s.disk;
    }
    if s.any_existing
        then ok store
        else (write_pool_header ch now 0 store).0 >>= λ _. ok (write_pool_header ch now 0 store).1

  -- `scan_records` on each pool file in turn.
  unfoldable pub scan_slots : Disk → ℕ → List PoolSlot → Result (List ScannedRecord)
  scan_slots disk i [] = ok []
  scan_slots disk i (slot ∷ slots) = do
    file ← or_err (disk i) (storage (cannot_open i))
    recs ← scan_records ch clock i slot.pool_id pool_size file
    more ← scan_slots disk (suc i) slots
    ok (recs ++ more)

-- `(a.pool_id, a.record_offset) <= (b.pool_id, b.record_offset)`
unfoldable pub at_or_before : ScannedRecord → ScannedRecord → Bool
at_or_before a b =
    ltb a.pool_id b.pool_id || (a.pool_id == b.pool_id && leb a.record_offset b.record_offset)

unfoldable pub place_record : ScannedRecord → List ScannedRecord → List ScannedRecord
place_record r [] = r ∷ []
place_record r (x ∷ xs) = if at_or_before r x then r ∷ x ∷ xs else x ∷ place_record r xs

-- `sort_by_key`, which is stable
unfoldable pub sort_records : List ScannedRecord → List ScannedRecord
unfolding place_record at_or_before
sort_records [] = []
sort_records (r ∷ rs) = place_record r (sort_records rs)

unfoldable pub scan_all_pools : Chrono → (ℕ → Time) → Store → Result (List ScannedRecord)
unfolding scan_slots
scan_all_pools ch clock s = do
  all ← scan_slots ch clock s.pool.pool_capacity s.disk 0 s.pool.slots
  ok (sort_records all)
