-- ===== src/Api/Cameras.antt =====
-- `handle_list_cameras`, `handle_add_camera` and `handle_remove_camera` of src/api.rs. Whether
-- `save_to_file` succeeds is the argument `save`; the handlers only log its failure.
pub mod Tables
pub mod Listed
pub mod Sync
pub mod LastCamera
pub mod Persisted
use oasis_nvr.Prelude.{
  ℕ, ◌+◌, Bool, true, false, ◌||◌, not, List, [], ◌∷◌, ◌++◌, map, keep, length, bytes_eq,
  if◌then◌else◌,
}
use oasis_nvr.Utf8.{Text, contains}
use oasis_nvr.Outcome.{Result, ok, err, panic}
use oasis_nvr.Config.{CameraConfig, Config}
use oasis_nvr.Manager.{RecordingManager, add_camera, remove_camera, list_cameras}
use oasis_nvr.Storage.Index.{cameras}
use oasis_nvr.Api.{
  AppState, created_201, not_found_404, conflict_409, json, content, camera_not_found, failed,
  Reply, answer, refuse,
}

-- A camera of the list; an offline one has the name "Removed: " with its id, and no url.
pub data Listing : Type 0 where
  active : CameraConfig → Listing
  offline : Text → Listing

pub record CameraList : Type 0 where
  pub cameras : List Listing
  pub total : ℕ

unfoldable pub handle_list_cameras : AppState → Reply CameraList
handle_list_cameras state =
    let active_cameras = list_cameras state.manager in
    let active_ids = map (λ c. c.id) active_cameras in
    let offline_ids = keep (λ id. not (contains active_ids id)) (cameras state.index) in
    let list = map active active_cameras ++ map offline offline_ids in
    answer json (record { cameras = list; total = length list })

-- The configuration with these cameras, written to the file if that succeeds.
unfoldable pub save_cameras :
    (Config → Bool) → AppState → RecordingManager → List CameraConfig → AppState
save_cameras save state manager cameras =
    let config = record state.config { cameras = cameras } in
    record state {
      config = config;
      saved = if save config then config else state.saved;
      manager = manager;
    }

unfoldable pub handle_add_camera :
    (Config → Bool) → AppState → CameraConfig → Result (Reply CameraConfig × AppState)
handle_add_camera save state body =
    let (added, manager) = add_camera state.manager body in
    elim added [
      | ok u ↦ ok (
        record { status = created_201; media = json; body = content body },
        save_cameras save state manager (state.config.cameras ++ (body ∷ [])),
      )
      | err e ↦ ok (refuse conflict_409 json (failed e), record state { manager = manager })
      | panic ↦ panic
    ]

-- The reply of a removal has the id.
unfoldable pub handle_remove_camera : (Config → Bool) → AppState → Text → Reply Text × AppState
handle_remove_camera save state camera_id =
    let (removed, manager) = remove_camera state.manager camera_id in
    if removed
    then (
      answer json camera_id,
      save_cameras save state manager
          (keep (λ c. not (bytes_eq c.id camera_id)) state.config.cameras),
    )
    else (
      refuse not_found_404 json (camera_not_found camera_id),
      record state { manager = manager },
    )
