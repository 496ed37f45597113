-- ===== src/Storage/GlobalWriter/Restart/Started.antt =====
-- What the writer's index knows after a restart.
use oasis_nvr.Prelude.{ℕ, suc, ◌+◌, ◌^◌, ◌<◌, ◌≡◌, refl, List, [], ◌∷◌, arith, All, length}
use oasis_nvr.Chrono.{Time, Chrono}
use oasis_nvr.Outcome.{ok}
use oasis_nvr.Storage.ChunkPool.Types.{ScannedRecord}
use oasis_nvr.Storage.ChunkPool.Files.{Store}
use oasis_nvr.Storage.ChunkPool.Open.{scan_all_pools}
use oasis_nvr.Storage.Index
use oasis_nvr.Storage.Index.{SegmentIndex, insert, insert_scanned, rebuild_from_scanned}
use oasis_nvr.Storage.Index.Laws.{IsValid, All-map_insert, insert-IsValid}
use oasis_nvr.Storage.GlobalWriter.{start_index}
use oasis_nvr.Storage.GlobalWriter.Restart.{
  location_of, RecordOk, EntryOk, CleanSlots, stored_count, scan_all_pools-reported, all_reported,
  length-all_reported, all_reported-ok,
}

-- An index that is valid, whose entries recall segments of the store, and that gave out `n` ids.
pub record Recalling (s : Store) (ix : SegmentIndex) (n : ℕ) : Type 0 where
  pub valid : IsValid ix
  pub recalls : All (λ e. EntryOk s e.1) ix.entries
  pub given : ix.segment_counter ≡ n

insert_scanned-Recalling :
    (s : Store) (rs : List ScannedRecord) (ix : SegmentIndex) (n : ℕ)
    → n + length rs < 2 ^ 64
    → All (RecordOk s) rs
    → Recalling s ix n
    → Recalling s (insert_scanned ix rs) (n + length rs)
unfolding insert_scanned insert
insert_scanned-Recalling s [] ix n few oks h = record {
  valid = h.valid;
  recalls = h.recalls;
  given = omega (arith, h.given);
}
insert_scanned-Recalling s (r ∷ rs) ix n few oks h =
    let step : n + suc (length rs) ≡ n + 1 + length rs = omega arith in
    rw step (
      insert_scanned-Recalling s rs _ (n + 1) (omega arith) oks.1 (record {
        valid =
            (insert-IsValid ix r.camera_id r.start_ts r.end_ts (location_of r)
              (omega (arith, h.given)) h.valid).0;
        recalls = All-map_insert (λ e. EntryOk s e.1) _ ix.entries oks.0 h.recalls;
        given = omega (arith, h.given);
      }))

-- After a restart everything that is listed can be read: where the pool files are as the recorder
-- left them, with no record of an earlier lap behind their records, the writer's index starts with
-- one id for each stored segment and is valid, and each of its entries has a location that reads
-- back the bytes of a stored segment, with the segment's times in whole seconds and the camera's id
-- as a record keeps it. The ids must not reach 2^64.
pub start_index-Recalling :
    (ch : Chrono) (clock : ℕ → Time) (s : Store) (ids : ℕ → ℕ)
    (clean : CleanSlots ch clock s ids 0 s.pool.slots)
    → 64 + s.pool.pool_capacity < 2 ^ 63
    → stored_count ch clock s ids 0 s.pool.slots clean < 2 ^ 64
    → (ix : SegmentIndex) × (start_index (scan_all_pools ch clock s) ≡ ok ix)
      × Recalling s ix (stored_count ch clock s ids 0 s.pool.slots clean)
unfolding start_index rebuild_from_scanned
start_index-Recalling ch clock s ids clean bounded few =
    let count = length-all_reported ch clock s ids bounded clean in
    let total : 0 + length (all_reported ch clock s ids bounded clean)
        ≡ stored_count ch clock s ids 0 s.pool.slots clean =
      omega (arith, count) in
    (
      rebuild_from_scanned Index.new (all_reported ch clock s ids bounded clean),
      rw (scan_all_pools-reported ch clock s ids bounded clean) refl,
      rw (← total) (
          insert_scanned-Recalling s (all_reported ch clock s ids bounded clean) Index.new 0
            (omega (arith, count)) (all_reported-ok ch clock s ids bounded clean) new_Recalling),
    )
  where
    new_Recalling : Recalling s Index.new 0
    new_Recalling = record {
      valid = record { ordered = tt; distinct = tt; filed = tt };
      recalls = tt;
      given = refl;
    }
