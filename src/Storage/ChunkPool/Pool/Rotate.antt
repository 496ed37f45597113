-- ===== src/Storage/ChunkPool/Pool/Rotate.antt =====
-- `rotate`: how long it waits for readers, and what it does to the next pool.
use oasis_nvr.Prelude.{
  ℕ, zero, suc, ◌+◌, ◌-◌, ◌%◌, ◌≤◌, ◌<◌, ◌≡◌, ◌≢◌, sym, ◌∙◌, Bool, false, some, List, ◌++◌, arith,
  length, length-append, drop-append_length, replicate, add64, le_bytes, length-le_bytes, get_elem?,
  set, get_elem?-set_self, lt_of_get_elem?, inl, inr, Bool-cases, ◌==◌,
}
use oasis_nvr.Chrono.{Time, Chrono}
use oasis_nvr.Outcome.{ok}
use oasis_nvr.Storage.ChunkPool.Types.{PoolSlot}
use oasis_nvr.Storage.ChunkPool.Files.{Store, write_at, write_disk}
use oasis_nvr.Storage.ChunkPool.Pool.{
  pool_header, write_pool_header, wait_from, wait_for_readers, rotate,
}

-- What the wait guarantees of the number of rounds that it took.
abbrev pub WaitsRight : (ℕ → Bool) → ℕ → ℕ → ℕ → Type 0
WaitsRight busy left start waited =
    (start ≤ waited) × (waited ≤ start + left) × ((waited < start + left) → busy waited ≡ false)

wait_from-WaitsRight :
    (busy : ℕ → Bool) (left start : ℕ) → WaitsRight busy left start (wait_from busy left start)
unfolding wait_from
wait_from-WaitsRight busy zero start = (omega arith, omega arith, λ h. absurd (omega arith))
wait_from-WaitsRight busy (suc left) start = elim (Bool-cases (busy start)) [
  | inl e ↦ rw e (
      let (lo, hi, free) = wait_from-WaitsRight busy left (suc start) in
      (omega arith, omega arith, λ h. free (omega arith)))
  | inr e ↦ rw e (omega arith, omega arith, λ h. e)
]

-- `rotate` asks for readers at most 50 times in its loop, and it stops waiting before that only
-- when the last answer was that there are none.
pub wait_for_readers_bounds :
    (busy : ℕ → Bool)
    → ((wait_for_readers busy).0 ≤ 50)
      × ((wait_for_readers busy).0 ≢ 50 → busy (wait_for_readers busy).0 ≡ false)
unfolding wait_for_readers
wait_for_readers_bounds busy =
    let (lo, hi, free) = wait_from-WaitsRight busy 50 0 in (omega arith, λ h. free (omega arith))

pub length-pool_header :
    (ch : Chrono) (pool_id : ℕ) (now : Time) → length (pool_header ch pool_id now) ≡ 64
unfolding pool_header
length-pool_header ch pool_id now = omega (
  arith,
  length-append (le_bytes 8 pool_id) (le_bytes 8 (ch.timestamp now) ++ replicate 40 0),
  length-append (le_bytes 8 (ch.timestamp now)) (replicate 40 0),
  length-le_bytes 8 pool_id,
  length-le_bytes 8 (ch.timestamp now),
)

write_at-start :
    (bytes xs ys : List ℕ) → length bytes ≡ length xs → write_at 0 bytes (xs ++ ys) ≡ bytes ++ ys
unfolding write_at
write_at-start bytes xs ys e =
    let gap : 0 - length (xs ++ ys) ≡ 0 = omega arith in
    let n : 0 + length bytes ≡ length xs = omega arith in rw (gap, n, drop-append_length xs ys)

abbrev pub next_idx : Store → ℕ
next_idx s = (s.pool.write_idx + 1) % length s.pool.slots

-- The store after a rotation into a slot whose file had `body` behind its header.
abbrev pub rotated : Chrono → Time → Store → ℕ → List ℕ → Store
rotated ch now s pool_id body = record {
  pool = record s.pool {
    write_idx = next_idx s;
    slots =
        set s.pool.slots (next_idx s)
          (record { pool_id = add64 pool_id (length s.pool.slots); bytes_used = 0 });
  };
  disk =
      write_disk s.disk (next_idx s)
        (pool_header ch (add64 pool_id (length s.pool.slots)) now ++ body);
}

-- A rotation makes the next pool of the ring the write pool, adds the number of pools to its id,
-- counts it as empty and writes a new header; all that stood behind the header stays in the file,
-- and the other pools and files stay as they were.
pub rotate-rotated :
    (ch : Chrono) (busy : ℕ → Bool) (now : Time) (s : Store) (slot : PoolSlot)
    (header body : List ℕ)
    → get_elem? s.pool.slots (next_idx s) ≡ some slot
    → s.disk (next_idx s) ≡ some (header ++ body)
    → length header ≡ 64
    → rotate ch busy now s ≡ (ok (wait_for_readers busy), rotated ch now s slot.pool_id body)
unfolding rotate write_pool_header
rotate-rotated ch busy now s slot header body at_slot at_file e =
    let lt = lt_of_get_elem? s.pool.slots (next_idx s) slot at_slot in
    let some_slots : (length s.pool.slots == 0) ≡ false = ground arith in
    rw (
      some_slots,
      at_slot,
      get_elem?-set_self s.pool.slots (next_idx s)
          (record { pool_id = add64 slot.pool_id (length s.pool.slots); bytes_used = 0 }) lt,
      at_file,
      write_at-start (pool_header ch (add64 slot.pool_id (length s.pool.slots)) now) header body
          (length-pool_header ch (add64 slot.pool_id (length s.pool.slots)) now ∙ sym e),
    )
