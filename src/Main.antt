-- ===== src/Main.antt =====
-- src/main.rs: the commands. `load` is what `Config::from_file` gives; a command prints, or exits
-- with status 1 after it named a problem.
pub mod Start
pub mod Offline
pub mod Recording
pub mod Restarted
pub mod Commands
use oasis_nvr.Prelude.{
  ℕ, ◌+◌, ◌-◌, ◌/◌, ◌%◌, ◌^◌, Bool, Option, none, some, List, [], ◌∷◌, map, keep, bytes_eq,
  if◌then◌else◌, length,
}
use oasis_nvr.Utf8.{Text}
use oasis_nvr.Chrono.{Time, Chrono}
use oasis_nvr.Outcome.{NvrError, Result, ok, err, panic, ◌>>=◌}
use oasis_nvr.Config.{CameraConfig, Config, pool_bytes}
use oasis_nvr.Storage.ChunkPool.Types.{ScannedRecord}
use oasis_nvr.Storage.ChunkPool.Files.{Disk, Store}
use oasis_nvr.Storage.ChunkPool.Pool.{status}
use oasis_nvr.Storage.ChunkPool.Open.{open_pool, scan_all_pools}
use oasis_nvr.Storage.Index
use oasis_nvr.Storage.Index.{SegmentIndex, SegmentMeta, segments_for_camera, rebuild_from_scanned}
use oasis_nvr.Playback.{Surroundings, Exported, export_range}
use oasis_nvr.Api.{Parse}

-- Why a command exits with status 1.
pub data Complaint : Type 0 where
  no_config no_manager cannot_open_pool export_failed : NvrError → Complaint
  invalid_from_time invalid_to_time : Complaint

pub data Run {ℓ} (A : Type ℓ) : Type ℓ where
  prints : A → Run A
  exits : Complaint → Run A
  crashes : Run A

-- `match r { Ok(a) => ..., Err(e) => { ...; exit(1) } }`
abbrev pub or_exit {ℓ κ} :
    {A : Type ℓ} {B : Type κ} → Result A → (NvrError → Complaint) → (A → Run B) → Run B
or_exit (ok a) why f = f a
or_exit (err e) why f = exits (why e)
or_exit panic why f = crashes

-- `unwrap_or_default()`
abbrev pub or_default : Result (List ScannedRecord) → Result (List ScannedRecord)
or_default (ok records) = ok records
or_default (err e) = ok []
or_default panic = panic

abbrev pub or_crash {ℓ κ} : {A : Type ℓ} {B : Type κ} → Result A → (A → Run B) → Run B
or_crash (ok a) f = f a
or_crash (err e) f = crashes
or_crash panic f = crashes

pub record StatusReport : Type 0 where
  pub max_pools : ℕ
  pub chunk_size_mb : ℕ
  pub active_pool : ℕ
  pub used : ℕ
  pub capacity : ℕ
  pub segments : ℕ
  pub cameras : List (CameraConfig × ℕ)

pub record Row : Type 0 where
  pub segment_id : ℕ
  pub start_ts : Time
  pub end_ts : Time
  pub pool_idx : ℕ
  pub size_kb : ℕ

abbrev pub row : SegmentMeta → Row
row seg = record {
  segment_id = seg.segment_id;
  start_ts = seg.start_ts;
  end_ts = seg.end_ts;
  pool_idx = seg.location.pool_idx;
  size_kb = (seg.location.record_size + 2 ^ 64 - 40) % 2 ^ 64 / 1024;
}

-- Rebuild the index from the pools.
unfoldable pub offline_index : Chrono → (ℕ → Time) → Store → Result SegmentIndex
offline_index ch clock pool = or_default (scan_all_pools ch clock pool) >>= λ records.
    ok (rebuild_from_scanned Index.new records)

-- The files, and the clock while they are read.
module _ (ch : Chrono) (clock : ℕ → Time) (now : Time) (disk : Disk) (load : Result Config) where
  abbrev opened : Config → Result Store
  opened cfg = open_pool ch clock (pool_bytes cfg.storage) now disk cfg.storage.max_pools

  unfoldable pub run_status : Run StatusReport
  run_status = or_exit load no_config λ cfg. or_exit (opened cfg) cannot_open_pool λ pool.
      or_crash (status pool.pool) λ st.
        or_crash (or_default (scan_all_pools ch clock pool)) λ records. prints (record {
          max_pools = cfg.storage.max_pools;
          chunk_size_mb = cfg.storage.chunk_size_mb;
          active_pool = st.0;
          used = st.1;
          capacity = st.2;
          segments = length records;
          cameras =
              map (λ c. (c, length (keep (λ r. bytes_eq r.camera_id c.id) records))) cfg.cameras;
        })

  -- Without segments the command says so.
  unfoldable pub run_list : Text → Run (List Row)
  run_list camera_id = or_exit load no_config λ cfg. or_exit (opened cfg) cannot_open_pool λ pool.
      or_crash (offline_index ch clock pool)
        λ index. prints (map row (segments_for_camera index camera_id))

  -- The number of the segments, and the output file.
  unfoldable pub run_export : Parse → Surroundings → Text → Text → Text → Run (ℕ × Option (List ℕ))
  run_export parse env camera_id from_text to_text = or_exit load no_config λ cfg.
      elim (parse from_text) [
        | none ↦ exits invalid_from_time
        | some from ↦ elim (parse to_text) [
          | none ↦ exits invalid_to_time
          | some to ↦ or_exit (opened cfg) cannot_open_pool λ pool.
              or_crash (offline_index ch clock pool) λ index.
                let exported = export_range env pool index camera_id from to in
                or_exit exported.outcome export_failed λ count. prints (count, exported.output)
        ]
      ]
