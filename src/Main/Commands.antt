-- ===== src/Main/Commands.antt =====
-- The command line of src/main.rs: which command runs what, and that the commands agree.
use oasis_nvr.Prelude.{
  ℕ, ◌^◌, ◌<◌, ◌≡◌, refl, ap, Option, List, [], ◌∷◌, map, arith, keep, length, All, bytes_eq,
}
use oasis_nvr.Utf8.{Text}
use oasis_nvr.Chrono.{Time, Chrono}
use oasis_nvr.Outcome.{Result, ok}
use oasis_nvr.Config.{CameraConfig, Config, pool_bytes}
use oasis_nvr.Storage.ChunkPool.Types.{ScannedRecord}
use oasis_nvr.Storage.ChunkPool.Files.{Disk, Store}
use oasis_nvr.Storage.ChunkPool.Pool.{status}
use oasis_nvr.Storage.ChunkPool.Open.{open_pool, scan_all_pools}
use oasis_nvr.Storage.Index
use oasis_nvr.Storage.Index.{SegmentMeta, insert_scanned, rebuild_from_scanned, segments_for_camera}
use oasis_nvr.Storage.Index.Laws.{IsValid}
use oasis_nvr.Storage.Index.Counts.{length-segments_for_camera-insert_scanned}
use oasis_nvr.Playback.{Surroundings}
use oasis_nvr.Api.{AppState, Parse}
use oasis_nvr.Main.{
  Run, StatusReport, Row, prints, row, or_default, offline_index, run_status, run_list, run_export,
}
use oasis_nvr.Main.Start.{Directories, Started, run_record}

-- `Command`: the subcommands, each with the path of the configuration.
pub data Command : Type 0 where
  start_recording : (config : Text) → Command
  show_status : (config : Text) → Command
  list_segments : (config camera : Text) → Command
  export_segments : (config camera from to output : Text) → Command

-- What a command does. What `export` makes is written to its output path.
pub data Ran : Type 0 where
  recorded : Run (Started × Option AppState) → Ran
  reported : Run StatusReport → Ran
  listed : Run (List Row) → Ran
  exported : Run (ℕ × Option (List ℕ)) → (output : Text) → Ran

module _ (ch : Chrono) (clock : ℕ → Time) (now : Time) (disk : Disk) where
  -- `load` is `Config::from_file`.
  unfoldable pub main : Directories → Parse → Surroundings → (Text → Result Config) → Command → Ran
  main dirs parse env load (start_recording config) =
      recorded (run_record ch clock now disk dirs (load config))
  main dirs parse env load (show_status config) =
      reported (run_status ch clock now disk (load config))
  main dirs parse env load (list_segments config camera) =
      listed (run_list ch clock now disk (load config) camera)
  main dirs parse env load (export_segments config camera from to output) =
      exported (run_export ch clock now disk (load config) parse env camera from to) output

  -- The rows that `list` prints for a camera are as many as `status` counts.
  abbrev pub ListsAsMany : Result Config → CameraConfig × ℕ → Type 0
  ListsAsMany load e =
      (rows : List Row) × (run_list ch clock now disk load e.0.id ≡ prints rows)
      × (length rows ≡ e.1)

length-map-row : (segs : List SegmentMeta) → length (map row segs) ≡ length segs
length-map-row [] = refl
length-map-row (s ∷ segs) = omega (arith, length-map-row segs)

new-IsValid : IsValid Index.new
new-IsValid = record { ordered = tt; distinct = tt; filed = tt }

none_yet : (camera : Text) → length (segments_for_camera Index.new camera) ≡ 0
unfolding segments_for_camera
none_yet camera = refl

as_many :
    (records : List ScannedRecord) (camera : Text)
    → length records < 2 ^ 64
    → length (map row (segments_for_camera (insert_scanned Index.new records) camera))
      ≡ length (keep (λ r. bytes_eq r.camera_id camera) records)
as_many records camera few = omega (
  arith,
  length-map-row (segments_for_camera (insert_scanned Index.new records) camera),
  length-segments_for_camera-insert_scanned camera records Index.new new-IsValid (omega arith),
  none_yet camera,
)

-- `status` and `list` agree: where the configuration is loaded and the pools can be opened, `status`
-- prints a report with the number of the records that the scan finds, and for each configured camera
-- `list` prints as many segments as the report counts for it. A scan that fails counts as no records;
-- the records must be fewer than 2^64.
pub run_status-run_list :
    (ch : Chrono) (clock : ℕ → Time) (now : Time) (disk : Disk) (cfg : Config) (pool : Store)
    (st : ℕ × ℕ × ℕ) (records : List ScannedRecord)
    → open_pool ch clock (pool_bytes cfg.storage) now disk cfg.storage.max_pools ≡ ok pool
    → status pool.pool ≡ ok st
    → or_default (scan_all_pools ch clock pool) ≡ ok records
    → length records < 2 ^ 64
    → (report : StatusReport) × (run_status ch clock now disk (ok cfg) ≡ prints report)
      × (report.segments ≡ length records)
      × (map (λ e. e.0) report.cameras ≡ cfg.cameras)
      × All (ListsAsMany ch clock now disk (ok cfg)) report.cameras
unfolding run_status run_list offline_index rebuild_from_scanned
run_status-run_list ch clock now disk cfg pool st records opens stands scans few = (
  record {
    max_pools = cfg.storage.max_pools;
    chunk_size_mb = cfg.storage.chunk_size_mb;
    active_pool = st.0;
    used = st.1;
    capacity = st.2;
    segments = length records;
    cameras = map counted cfg.cameras;
  },
  rw (run_status, opens, stands, scans) refl,
  refl,
  firsts cfg.cameras,
  each cfg.cameras,
)
  where
    counted : CameraConfig → CameraConfig × ℕ
    counted c = (c, length (keep (λ r. bytes_eq r.camera_id c.id) records))

    firsts : (cs : List CameraConfig) → map (λ e. e.0) (map counted cs) ≡ cs
    firsts [] = refl
    firsts (c ∷ cs) = ap (◌∷◌ c) (firsts cs)

    each : (cs : List CameraConfig) → All (ListsAsMany ch clock now disk (ok cfg)) (map counted cs)
    each [] = tt
    each (c ∷ cs) = (
      (
        map row (segments_for_camera (insert_scanned Index.new records) c.id),
        rw (run_list, opens, scans) refl,
        as_many records c.id few,
      ),
      each cs,
    )
