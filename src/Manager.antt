-- ===== src/Manager.antt =====
-- src/manager.rs: the table of camera workers. A worker task is its number, in the order of
-- spawning; the manager's calls on tasks (`spawn`, `abort`) are the list of `Call`s.
pub mod Cameras
pub mod Tasks
pub mod Shutdown
use oasis_nvr.Prelude.{
  ℕ, ◌+◌, Bool, true, false, Option, none, some, List, [], ◌∷◌, ◌++◌, map, bytes_eq, if◌then◌else◌,
  not, keep,
}
use oasis_nvr.Utf8.{Text}
use oasis_nvr.Outcome.{NvrError, config, camera_exists, Result, ok, err}
use oasis_nvr.Config.{CameraConfig}

pub data Call : Type 0 where
  spawn : ℕ → CameraConfig → Call
  abort : ℕ → Call
  abort_writer : Call

pub record WorkerEntry : Type 0 where
  pub config : CameraConfig
  pub handle : ℕ

-- `workers: HashMap<String, WorkerEntry>` as an association list; `next` is the next task's number.
pub record RecordingManager : Type 0 where
  pub workers : List (Text × WorkerEntry)
  pub next : ℕ
  pub calls : List Call

unfoldable pub find_worker : Text → List (Text × WorkerEntry) → Option WorkerEntry
find_worker id [] = none
find_worker id ((k, e) ∷ ws) = if bytes_eq k id then some e else find_worker id ws

unfoldable pub remove_worker : Text → List (Text × WorkerEntry) → List (Text × WorkerEntry)
remove_worker id [] = []
remove_worker id ((k, e) ∷ ws) = if bytes_eq k id then ws else (k, e) ∷ remove_worker id ws

-- `HashMap::insert`: an old value under the key is replaced, and its task goes on.
unfoldable pub insert_worker :
    Text → WorkerEntry → List (Text × WorkerEntry) → List (Text × WorkerEntry)
unfolding remove_worker
insert_worker id e ws = (id, e) ∷ remove_worker id ws

-- Spawn a worker for the camera and enter it into the table.
unfoldable pub start_worker : RecordingManager → CameraConfig → RecordingManager
unfolding insert_worker
start_worker m c = record {
  workers = insert_worker c.id (record { config = c; handle = m.next }) m.workers;
  next = m.next + 1;
  calls = m.calls ++ (spawn m.next c ∷ []);
}

-- The loop of `RecordingManager::new` over the configured cameras.
unfoldable pub start_workers : RecordingManager → List CameraConfig → RecordingManager
unfolding start_worker
start_workers m [] = m
start_workers m (c ∷ cs) = start_workers (start_worker m c) cs

unfoldable pub add_camera : RecordingManager → CameraConfig → Result (Unit {0}) × RecordingManager
unfolding start_worker
add_camera m c = elim (find_worker c.id m.workers) [
  | some e ↦ (err (config (camera_exists c.id)), m)
  | none ↦ (ok tt, start_worker m c)
]

unfoldable pub remove_camera : RecordingManager → Text → Bool × RecordingManager
remove_camera m id = elim (find_worker id m.workers) [
  | some e ↦ (
    true,
    record m { workers = remove_worker id m.workers; calls = m.calls ++ (abort e.handle ∷ []) },
  )
  | none ↦ (false, m)
]

unfoldable pub list_cameras : RecordingManager → List CameraConfig
list_cameras m = map (λ w. w.1.config) m.workers

-- Every worker is aborted, then the writer.
unfoldable pub shutdown : RecordingManager → List Call
shutdown m = m.calls ++ (map (λ w. abort w.1.handle) m.workers ++ (abort_writer ∷ []))
