-- ===== src/Main/Start/Requests.antt =====
-- The configuration and the workers agree from the start and through all requests that change them.
use oasis_nvr.Prelude.{◌≡◌, Bool}
use oasis_nvr.Utf8.{Text}
use oasis_nvr.Chrono.{Chrono}
use oasis_nvr.Outcome.{ok}
use oasis_nvr.Config.{CameraConfig, Config}
use oasis_nvr.Manager.{start_workers}
use oasis_nvr.Storage.ChunkPool.Readers
use oasis_nvr.Storage.ChunkPool.Files.{Store}
use oasis_nvr.Storage.Index.{SegmentIndex}
use oasis_nvr.Api.{AppState, Reply}
use oasis_nvr.Api.Cameras.{handle_add_camera, handle_remove_camera}
use oasis_nvr.Main.Start.{Started, no_workers}

-- A request that changes the cameras, from one state to the next. The file may be saved or not.
pub data Request (save : Config → Bool) : AppState → AppState → Type 0 where
  adding :
      {s t : AppState} (body : CameraConfig) (reply : Reply CameraConfig)
      → handle_add_camera save s body ≡ ok (reply, t)
      → Request save s t
  removing :
      {s t : AppState} (id : Text) → (handle_remove_camera save s id).1 ≡ t → Request save s t

-- The states that some requests lead to.
pub data Reach (save : Config → Bool) (s : AppState) : AppState → Type 0 where
  start : Reach save s s
  next : {t u : AppState} → Reach save s t → Request save t u → Reach save s u

-- What `new_manager` makes of a pool and an index.
abbrev begun : Config → Store → SegmentIndex → Started
begun cfg pool index = record {
  manager = start_workers no_workers cfg.cameras;
  store = pool;
  read_counters = Readers.new cfg.storage.max_pools;
  index = index;
}
