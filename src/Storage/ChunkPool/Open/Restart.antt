-- ===== src/Storage/ChunkPool/Open/Restart.antt =====
-- What `open` makes of the pools that a recorder left: the same slots.
use oasis_nvr.Prelude.{
  ℕ, zero, suc, ◌+◌, ◌^◌, ◌≤◌, ◌<◌, ◌≡◌, ◌≢◌, refl, sym, ap, ap₂, ◌∙◌, true, some, List, [], ◌∷◌,
  ◌++◌, append-nil, append_assoc, arith, false, leb, if◌then◌else◌, All, length, take, add64,
  from_le_bytes-le_bytes,
}
use oasis_nvr.Chrono.{Time, Chrono}
use oasis_nvr.Outcome.{ok}
use oasis_nvr.Storage.ChunkPool.Types.{record_magic, PoolSlot}
use oasis_nvr.Storage.ChunkPool.Record.{Segment, record_size, scan_records}
use oasis_nvr.Storage.ChunkPool.Record.RoundTrip.{IsStorable}
use oasis_nvr.Storage.ChunkPool.Record.Scan.{layout, total_size, recovered_all, scan_records-layout}
use oasis_nvr.Storage.ChunkPool.Files.{Disk}
use oasis_nvr.Storage.ChunkPool.Pool.{pool_header}
use oasis_nvr.Storage.ChunkPool.Pool.Rotate.{length-pool_header}
use oasis_nvr.Storage.ChunkPool.Open.{
  read_pool_header, sum_sizes, OpenState, open_slot, open_loop, open_pool,
}
use oasis_nvr.Storage.ChunkPool.Open.Resume.{Found, open_slot-found, best, best-greatest}

read_pool_header-pool_header :
    (ch : Chrono) (id : ℕ) (created : Time) (rest : List ℕ)
    → id < 2 ^ 64
    → read_pool_header (pool_header ch id created ++ rest) ≡ ok (id, ch.timestamp created)
unfolding read_pool_header pool_header oasis_nvr.Storage.ChunkPool.Record.read_exact
    oasis_nvr.Prelude.le_bytes oasis_nvr.Prelude.from_le_bytes oasis_nvr.Prelude.bytes_eq
read_pool_header-pool_header ch id created rest small =
    ap₂ (λ (x : ℕ) (y : ℕ). ok (x, y)) (from_le_bytes-le_bytes 8 id (omega arith))
      (from_le_bytes-le_bytes 8 (ch.timestamp created) (omega (arith, ch.timestamp-lt created)))

sum_sizes-recovered_all :
    (i id offset : ℕ) (ss : List Segment)
    → total_size ss < 2 ^ 64
    → sum_sizes (recovered_all i id offset ss) ≡ total_size ss
sum_sizes-recovered_all i id offset [] h = refl
sum_sizes-recovered_all i id offset (s ∷ ss) h =
    let rest = sum_sizes-recovered_all i id (offset + record_size s) ss (omega arith) in
    rw rest (omega arith)

module _ (ch : Chrono) (clock : ℕ → Time) (size : ℕ) where
  -- A pool file as the recorder leaves it, and its slot: the header with the slot's id, the records,
  -- and behind them no record of an earlier lap.
  pub record Clean (disk : Disk) (i id : ℕ) (slot : PoolSlot) : Type 0 where
    pub created : Time
    pub segments : List Segment
    pub tail : List ℕ
    pub slot_is : slot ≡ record { pool_id = id; bytes_used = total_size segments }
    pub file : disk i ≡ some (pool_header ch id created ++ layout ch segments tail)
    pub id_small : id < 2 ^ 64
    pub storable : All (IsStorable ch) segments
    pub within : total_size segments ≤ size
    pub ends : take 4 tail ≢ record_magic

  -- So it is with each of these slots, the first of them number `i`.
  abbrev pub AllClean : Disk → (ℕ → ℕ) → ℕ → List PoolSlot → Type 0
  AllClean disk ids i [] = Unit {0}
  AllClean disk ids i (slot ∷ slots) = Clean disk i (ids i) slot × AllClean disk ids (suc i) slots

  found :
      (disk : Disk) (i id : ℕ) (slot : PoolSlot)
      → 64 + size < 2 ^ 64
      → Clean disk i id slot
      → Found ch clock size disk i id
  found disk i id slot h c = record {
    file = pool_header ch id c.created ++ layout ch c.segments c.tail;
    records = recovered_all i id 64 c.segments;
    created = ch.timestamp c.created;
    there = c.file;
    header = read_pool_header-pool_header ch id c.created _ c.id_small;
    scanned =
        scan_records-layout ch clock i id size (pool_header ch id c.created) c.segments c.tail
          (length-pool_header ch id c.created) h c.storable c.within c.ends;
  }

  -- The state of the loop after a clean file.
  abbrev with_slot : OpenState → ℕ → ℕ → PoolSlot → OpenState
  with_slot s i id slot = record s {
    slots = s.slots ++ (slot ∷ []);
    best_idx = if leb s.best_pool_id id then i else s.best_idx;
    best_pool_id = if leb s.best_pool_id id then id else s.best_pool_id;
    any_existing = true;
  }

  open_slot-Clean :
      (i id : ℕ) (s : OpenState) (slot : PoolSlot)
      → 64 + size < 2 ^ 64
      → Clean s.disk i id slot
      → open_slot ch clock size i s ≡ ok (with_slot s i id slot)
  unfolding found
  open_slot-Clean i id s slot h c =
      open_slot-found ch clock size i id s (found s.disk i id slot h c)
      ∙ rw (sum_sizes-recovered_all i id 64 c.segments (omega (arith, c.within)), c.slot_is) refl

  open_loop-Clean :
      (ids : ℕ → ℕ) (i : ℕ) (slot : PoolSlot) (slots : List PoolSlot) (s : OpenState)
      → 64 + size < 2 ^ 64
      → AllClean s.disk ids i (slot ∷ slots)
      → (t : OpenState) × (open_loop ch clock size (suc (length slots)) i s ≡ ok t)
        × (t.slots ≡ s.slots ++ (slot ∷ slots))
        × (t.best_idx ≡ (best ids (suc (length slots)) i (s.best_idx, s.best_pool_id)).0)
        × (t.any_existing ≡ true)
        × (t.disk ≡ s.disk)
  unfolding open_loop
  open_loop-Clean ids i slot [] s h c = (
    with_slot s i (ids i) slot,
    rw (open_slot-Clean i (ids i) s slot h c.0) refl,
    refl,
    refl,
    refl,
    refl,
  )
  open_loop-Clean ids i slot (next ∷ slots) s h c =
      let (t, run, same, idx, any, disk) =
        open_loop-Clean ids (suc i) next slots (with_slot s i (ids i) slot) h c.1 in
      (
        t,
        rw (open_slot-Clean i (ids i) s slot h c.0) run,
        same ∙ append_assoc s.slots (slot ∷ []) (next ∷ slots),
        idx,
        any,
        disk,
      )

  -- Opening the files of a recorder that has stopped restores its pool exactly: where each file has a
  -- header with its slot's id, then the records of its segments and no record of an earlier lap behind
  -- them, and the pool that was written has the last of the greatest ids, `open` gives the same slots
  -- with the same ids and bytes used, goes on writing in the same pool, and changes no file. The
  -- segments must be such as can be encoded and fit their pools, and offsets not reach 2^64.
  pub open_pool-restores :
      (now : Time) (disk : Disk) (ids : ℕ → ℕ) (slot : PoolSlot) (slots : List PoolSlot) (j : ℕ)
      → 64 + size < 2 ^ 64
      → AllClean disk ids 0 (slot ∷ slots)
      → j < length (slot ∷ slots)
      → ((k : ℕ) → k < j → ids k ≤ ids j)
      → ((k : ℕ) → j < k → k < length (slot ∷ slots) → ids k < ids j)
      → open_pool ch clock size now disk (length (slot ∷ slots))
        ≡ ok (record {
          pool = record { pool_capacity = size; slots = slot ∷ slots; write_idx = j };
          disk = disk;
        })
  unfolding open_pool
  open_pool-restores now disk ids slot slots j h c lt before behind =
      let (t, run, same, idx, any, unchanged) =
        open_loop-Clean ids 0 slot slots
          (record { slots = []; best_idx = 0; best_pool_id = 0; any_existing = false; disk = disk })
          h c in
      let resumes =
        best-greatest ids (suc (length slots)) 0 j (0, 0) (omega arith) (omega arith) (omega arith)
          before (λ k l m. behind k l (omega arith)) in
      rw (run, any, same, idx, resumes, unchanged) refl
