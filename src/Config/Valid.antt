-- ===== src/Config/Valid.antt =====
-- What a configuration that `validate` accepts guarantees.
use oasis_nvr.Prelude.{◌≤◌, ◌<◌, ◌^◌, ◌≡◌, ◌≢◌, [], arith}
use oasis_nvr.Outcome.{ok}
use oasis_nvr.Config.{Config, validate, pool_bytes}

-- `validate` accepts exactly the configurations with a camera, and with a chunk size, a number of
-- pools and a segment duration that are not zero.
pub validate_iff :
    (c : Config)
    → (validate c ≡ ok tt
        → (c.cameras ≢ [])
          × (c.storage.chunk_size_mb ≢ 0)
          × (c.storage.max_pools ≢ 0)
          × (c.storage.segment_duration_secs ≢ 0))
      × (c.cameras ≢ []
          → c.storage.chunk_size_mb ≢ 0
          → c.storage.max_pools ≢ 0
          → c.storage.segment_duration_secs ≢ 0
          → validate c ≡ ok tt)
unfolding validate
validate_iff c = ground arith

-- A pool of an accepted configuration has room for a megabyte at least, unless the size in bytes
-- does not fit 64 bits.
pub pool_bytes-pos :
    (c : Config)
    → validate c ≡ ok tt
    → c.storage.chunk_size_mb < 2 ^ 44
    → 2 ^ 20 ≤ pool_bytes c.storage
unfolding validate
pool_bytes-pos c h small = ground arith
