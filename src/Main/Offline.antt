-- ===== src/Main/Offline.antt =====
-- What the commands see without a running recorder.
use oasis_nvr.Prelude.{ℕ, ◌≡◌, refl, some, List, map}
use oasis_nvr.Utf8.{Text}
use oasis_nvr.Chrono.{Time, Chrono}
use oasis_nvr.Outcome.{Result, ok, err, panic, ◌>>=◌}
use oasis_nvr.Config.{Config, pool_bytes}
use oasis_nvr.Storage.ChunkPool.Types.{ScannedRecord}
use oasis_nvr.Storage.ChunkPool.Files.{Disk, Store}
use oasis_nvr.Storage.ChunkPool.Open.{open_pool, scan_all_pools}
use oasis_nvr.Storage.Index
use oasis_nvr.Storage.Index.{SegmentIndex, rebuild_from_scanned, segments_for_camera}
use oasis_nvr.Storage.GlobalWriter.{start_index}
use oasis_nvr.Playback.{Surroundings, export_range}
use oasis_nvr.Api.{Parse}
use oasis_nvr.Main.{
  prints, row, or_exit, or_default, export_failed, offline_index, run_list, run_export,
}

offline_index-start_index :
    (ch : Chrono) (clock : ℕ → Time) (pool : Store)
    → offline_index ch clock pool ≡ start_index (scan_all_pools ch clock pool)
unfolding offline_index start_index rebuild_from_scanned
offline_index-start_index ch clock pool = by_cases (scan_all_pools ch clock pool)
  where
    by_cases :
        (r : Result (List ScannedRecord))
        → (or_default r >>= λ records. ok (rebuild_from_scanned Index.new records)) ≡ start_index r
    by_cases (ok records) = refl
    by_cases (err e) = refl
    by_cases panic = refl

-- Without a running recorder, where the pools can be opened and the times be read, `list` prints
-- the segments and `export` exports the range of that index which the writer of a recorder would
-- start with on the same files.
pub run_list-start_index :
    (ch : Chrono) (clock : ℕ → Time) (now : Time) (disk : Disk) (cfg : Config) (pool : Store)
    (index : SegmentIndex) (camera : Text) (parse : Parse) (env : Surroundings)
    (from_text to_text : Text) (from to : Time)
    → open_pool ch clock (pool_bytes cfg.storage) now disk cfg.storage.max_pools ≡ ok pool
    → start_index (scan_all_pools ch clock pool) ≡ ok index
    → parse from_text ≡ some from
    → parse to_text ≡ some to
    → (run_list ch clock now disk (ok cfg) camera
        ≡ prints (map row (segments_for_camera index camera)))
      × (run_export ch clock now disk (ok cfg) parse env camera from_text to_text ≡ (
          let exported = export_range env pool index camera from to in
          or_exit exported.outcome export_failed λ count. prints (count, exported.output)))
unfolding run_list run_export
run_list-start_index ch clock now disk cfg pool index camera parse env from_text to_text from to
      opens starts f t =
    let same = offline_index-start_index ch clock pool in
    (rw (run_list, opens, same, starts) refl, rw (run_export, f, t, opens, same, starts) refl)
