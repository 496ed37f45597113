-- ===== src/Tests/StaleTests.antt =====
-- The theorem on the records of an earlier lap at a concrete pool.
use oasis_nvr.Prelude.{
  ℕ, ◌≡◌, ◌++◌, ◌==◌, refl, List, some, [], ◌∷◌, arith, if◌then◌else◌, replicate, get_elem?,
}
use oasis_nvr.Chrono.{Time}
use oasis_nvr.Outcome.{ok}
use oasis_nvr.Storage.ChunkPool.Record.{Segment, scan_records}
use oasis_nvr.Storage.ChunkPool.Record.RoundTrip.{IsStorable}
use oasis_nvr.Storage.ChunkPool.Record.Scan.{layout, recovered_all}
use oasis_nvr.Storage.ChunkPool.Files.{Store}
use oasis_nvr.Storage.ChunkPool.Pool.{append}
use oasis_nvr.Storage.ChunkPool.Ring.Stale.{ComesRound, append-scan_records}
use oasis_nvr.Tests.Fixtures.{calendar, cam2, segment}
use oasis_nvr.Tests.StorageTests.{
  first, first-IsStorable, second, second-IsStorable, header64, never, not_magic,
}

-- Pool 1 is filled to 190 of 200 bytes; pool 0 has two records of the earlier lap.
abbrev lapped : Store
lapped = record {
  pool = record {
    pool_capacity = 200;
    slots = record { pool_id = 0; bytes_used = 84 } ∷ record { pool_id = 1; bytes_used = 190 } ∷ [];
    write_idx = 1;
  };
  disk = λ i.
      if i == 0
      then some (header64 ++ layout calendar (first ∷ second ∷ []) (replicate 20 0))
      else some header64;
}

abbrev alike : Segment
alike = segment cam2 8 (7 ∷ 8 ∷ 9 ∷ [])

alike-IsStorable : IsStorable calendar alike
alike-IsStorable = omega arith

lapped-ComesRound : ComesRound calendar lapped alike first (second ∷ [])
lapped-ComesRound = record {
  current = record { pool_id = 1; bytes_used = 190 };
  next = record { pool_id = 0; bytes_used = 84 };
  header = header64;
  tail = replicate 20 0;
  at_current = refl;
  at_next = refl;
  file = refl;
  header_size = refl;
  storable = (alike-IsStorable, (first-IsStorable, (second-IsStorable, tt)));
  full = omega arith;
  no_wrap = omega arith;
  within = omega arith;
  bounded = omega arith;
  alike = refl;
  no_magic = not_magic;
}

no_time : ℕ → Time
no_time k = 0

append-scan_records_example :
    (file : List ℕ) × ((append calendar never 0 alike lapped).1.disk 0 ≡ some file)
    × (get_elem? (append calendar never 0 alike lapped).1.pool.slots 0
        ≡ some (record { pool_id = 2; bytes_used = 43 }))
    × (scan_records calendar no_time 0 2 200 file ≡ ok (recovered_all 0 2 64 (alike ∷ second ∷ [])))
unfolding lapped-ComesRound
append-scan_records_example =
    append-scan_records calendar never 0 lapped alike first (second ∷ []) lapped-ComesRound no_time
