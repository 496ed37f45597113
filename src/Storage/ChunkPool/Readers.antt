-- ===== src/Storage/ChunkPool/Readers.antt =====
-- `PoolReadCounters` and `PoolReadGuard` of src/storage/chunk_pool.rs: a counter for each pool, and
-- guards that give it back when they are dropped.
pub mod Laws
use oasis_nvr.Prelude.{ℕ, ◌+◌, ◌-◌, ◌%◌, ◌^◌, Bool, List, ltb, get_elem?, set, replicate, add64}
use oasis_nvr.Outcome.{Result, ok, ◌>>=◌, or_panic}

-- `counters: Vec<AtomicUsize>`
pub record PoolReadCounters : Type 0 where
  pub counters : List ℕ

-- The counters that the guard refers to are shared; the guard itself is its pool's index.
pub record PoolReadGuard : Type 0 where
  pub pool_idx : ℕ

unfoldable pub new : ℕ → PoolReadCounters
new n = record { counters = replicate n 0 }

-- `fetch_add(1)`; an index out of range panics.
unfoldable pub acquire : PoolReadCounters → ℕ → Result (PoolReadCounters × PoolReadGuard)
acquire c pool_idx = do
  n ← or_panic (get_elem? c.counters pool_idx)
  ok (record { counters = set c.counters pool_idx (add64 n 1) }, record { pool_idx = pool_idx })

unfoldable pub has_readers : PoolReadCounters → ℕ → Result Bool
has_readers c pool_idx = do n ← or_panic (get_elem? c.counters pool_idx); ok (ltb 0 n)

-- `fetch_sub(1)`, which wraps at 0
unfoldable pub release : PoolReadCounters → ℕ → Result PoolReadCounters
release c pool_idx = do
  n ← or_panic (get_elem? c.counters pool_idx)
  ok (record { counters = set c.counters pool_idx ((n + 2 ^ 64 - 1) % 2 ^ 64) })

-- `PoolReadGuard::drop`
unfoldable pub drop_guard : PoolReadCounters → PoolReadGuard → Result PoolReadCounters
unfolding release
drop_guard c g = release c g.pool_idx
