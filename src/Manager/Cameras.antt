-- ===== src/Manager/Cameras.antt =====
-- Adding and removing cameras at runtime.
use oasis_nvr.Prelude.{
  ◌≡◌, refl, true, false, none, some, List, [], ◌∷◌, ◌++◌, arith, bytes_eq_refl,
}
use oasis_nvr.Utf8.{Text}
use oasis_nvr.Outcome.{config, camera_exists, ok, err}
use oasis_nvr.Config.{CameraConfig}
use oasis_nvr.Manager.{
  WorkerEntry, RecordingManager, abort, spawn, find_worker, remove_worker, add_camera,
  remove_camera,
}

pub find-remove_absent :
    (id : Text) (ws : List (Text × WorkerEntry))
    → find_worker id ws ≡ none
    → remove_worker id ws ≡ ws
unfolding find_worker remove_worker
find-remove_absent id [] h = refl
find-remove_absent id ((k, e) ∷ ws) h = ground (arith, find-remove_absent id ws)

-- A camera with a new id is added under a new task; removing it again aborts that task and leaves
-- the table as it was.
pub remove_camera-add_camera :
    (m : RecordingManager) (c : CameraConfig)
    → find_worker c.id m.workers ≡ none
    → let (r, m1) = add_camera m c in
      let (done, m2) = remove_camera m1 c.id in
      (r ≡ ok tt)
      × (find_worker c.id m1.workers ≡ some (record { config = c; handle = m.next }))
      × (done ≡ true)
      × (m2.workers ≡ m.workers)
      × (m2.calls ≡ (m.calls ++ (spawn m.next c ∷ [])) ++ (abort m.next ∷ []))
unfolding add_camera remove_camera find_worker remove_worker
remove_camera-add_camera m c h =
    ground (arith, bytes_eq_refl c.id, find-remove_absent c.id m.workers)

-- A camera whose id is taken is refused, and a camera that is not there is not removed; neither
-- call changes the manager or touches a task.
pub camera_errors :
    (m : RecordingManager) (c : CameraConfig) (id : Text) (e : WorkerEntry)
    → find_worker c.id m.workers ≡ some e
    → find_worker id m.workers ≡ none
    → (add_camera m c ≡ (err (config (camera_exists c.id)), m)) × (remove_camera m id ≡ (false, m))
unfolding add_camera remove_camera
camera_errors m c id e taken absent = (rw (add_camera, taken), rw (remove_camera, absent))
