-- ===== src/Main/Start.antt =====
-- `RecordingManager::new` of src/manager.rs with `spawn_writer` of src/storage/global_writer.rs, and
-- `run_record` of src/main.rs up to the point where the API starts.
pub mod Requests
pub mod Ends
pub mod Queue
use oasis_nvr.Prelude.{ℕ, Bool, ◌&&◌, not, Option, none, some, List, [], if◌then◌else◌, length}
use oasis_nvr.Chrono.{Time, Chrono}
use oasis_nvr.Outcome.{NvrError, storage, other, Result, ok, err, panic, ◌>>=◌, ◌>>◌, fail_if}
use oasis_nvr.Config.{Config, pool_bytes}
use oasis_nvr.Manager
use oasis_nvr.Manager.{RecordingManager, start_workers, shutdown}
use oasis_nvr.Storage.ChunkPool.Readers
use oasis_nvr.Storage.ChunkPool.Readers.{PoolReadCounters}
use oasis_nvr.Storage.ChunkPool.Files.{Disk, Store}
use oasis_nvr.Storage.ChunkPool.Open.{open_pool, scan_all_pools}
use oasis_nvr.Storage.Index.{SegmentIndex}
use oasis_nvr.Storage.GlobalWriter.{spawn_writer, start_index}
use oasis_nvr.Api.{AppState}
use oasis_nvr.Main.{Run, prints, or_exit, no_config, no_manager}

-- Whether the directories can be made and cleared, whether an old one is there, and which bounds
-- `mpsc::channel` accepts.
pub record Directories : Type 0 where
  pub make_base : Bool
  pub tmp_exists : Bool
  pub clear_tmp : Bool
  pub make_tmp : Bool
  pub channel : ℕ → Bool

-- What the manager shares once it runs. The index is that which the writer has built when it begins
-- to receive.
pub record Started : Type 0 where
  pub manager : RecordingManager
  pub store : Store
  pub read_counters : PoolReadCounters
  pub index : SegmentIndex

abbrev pub no_workers : RecordingManager
no_workers = record { workers = []; next = 0; calls = [] }

-- `RecordingManager::new`
unfoldable pub new_manager :
    Chrono → (ℕ → Time) → Time → Disk → Directories → Config → Result Started
new_manager ch clock now disk dirs cfg = do
  fail_if (not dirs.make_base) (storage other)
  fail_if (dirs.tmp_exists && not dirs.clear_tmp) (storage other)
  fail_if (not dirs.make_tmp) (storage other)
  pool ← open_pool ch clock (pool_bytes cfg.storage) now disk cfg.storage.max_pools
  w ← spawn_writer dirs.channel pool cfg.storage.writer_queue_size
  index ← start_index (scan_all_pools ch clock w.store)
  ok (record {
    manager = start_workers no_workers cfg.cameras;
    store = w.store;
    read_counters = Readers.new cfg.storage.max_pools;
    index = index;
  })

abbrev pub api_state : Config → Started → AppState
api_state cfg started = record {
  index = started.index;
  config = cfg;
  saved = cfg;
  read_counters = started.read_counters;
  manager = started.manager;
  store = started.store;
}

-- The state of the API, if it is enabled.
unfoldable pub after_start : Config → Started → Run (Started × Option AppState)
after_start cfg started =
    prints (started, if cfg.api.enabled then some (api_state cfg started) else none)

unfoldable pub run_record :
    Chrono
    → (ℕ → Time)
    → Time
    → Disk
    → Directories
    → Result Config
    → Run (Started × Option AppState)
run_record ch clock now disk dirs load =
    or_exit load no_config
      λ cfg. or_exit (new_manager ch clock now disk dirs cfg) no_manager (after_start cfg)

-- The end of `run_record`, after the interrupt: while the server still has its state, and with it
-- the manager, `Arc::try_unwrap` fails, and `shutdown` is not called.
unfoldable pub end_record : Config → Bool → RecordingManager → List Manager.Call
end_record cfg serving m = if cfg.api.enabled && serving then m.calls else shutdown m
