-- ===== src/Api/Cameras/Sync.antt =====
-- The configuration and the table of workers name the same cameras.
use oasis_nvr.Prelude.{
  ◌≡◌, refl, ◌∙◌, ap, Bool, true, false, ◌&&◌, not, none, some, [], ◌∷◌, ◌++◌, keep, ◌⊎◌, All,
  Ordered, bytes_eq, inl, inr,
}
use oasis_nvr.Prelude.Cases.{Option-cases}
use oasis_nvr.Utf8.{Text}
use oasis_nvr.Outcome.{config, camera_exists, Result, ok, err}
use oasis_nvr.Config.{CameraConfig, Config}
use oasis_nvr.Manager.{
  WorkerEntry, RecordingManager, find_worker, remove_worker, insert_worker, start_worker,
  add_camera, remove_camera,
}
use oasis_nvr.Api.{
  AppState, created_201, not_found_404, conflict_409, json, content, camera_not_found, failed,
  Reply, answer, refuse,
}
use oasis_nvr.Api.Cameras.{save_cameras, handle_add_camera, handle_remove_camera}
use oasis_nvr.Api.Cameras.Tables.{
  has_id, has_worker, KeysDiffer, IsFiled, All-remove, has_id-snoc, has_id-keep, find-has,
  find_some-has, has_worker-remove, remove_unique, insert_unique, or-and,
}

-- No two workers have one id, each stands under the id of its camera, and exactly the configured
-- cameras have a worker.
pub record InSync (state : AppState) : Type 0 where
  pub unique : Ordered KeysDiffer state.manager.workers
  pub filed : All IsFiled state.manager.workers
  pub same : (id : Text) → has_id id state.config.cameras ≡ has_worker id state.manager.workers

-- The new camera is configured, and its worker stands first in the table.
start_worker-InSync :
    (save : Config → Bool) (state : AppState) (body : CameraConfig)
    → InSync state
    → InSync (
        save_cameras save state
          (start_worker state.manager body)
          (state.config.cameras ++ (body ∷ [])))
unfolding save_cameras start_worker insert_worker
start_worker-InSync save state body h = record {
  unique = insert_unique body.id entry state.manager.workers h.unique;
  filed = (refl, All-remove IsFiled body.id state.manager.workers h.filed);
  same = λ id.
      rw
        (
          has_id-snoc id state.config.cameras body,
          has_worker-remove id body.id state.manager.workers h.unique,
          h.same id,
        )
        (or-and (bytes_eq body.id id) (has_worker id state.manager.workers));
}
  where
    entry : WorkerEntry
    entry = record { config = body; handle = state.manager.next }

add_camera-start_worker :
    (m : RecordingManager) (c : CameraConfig)
    → find_worker c.id m.workers ≡ none
    → add_camera m c ≡ (ok tt, start_worker m c)
unfolding add_camera
add_camera-start_worker m c h = rw (add_camera, h) refl

created :
    (save : Config → Bool) (state : AppState) (body : CameraConfig)
    → find_worker body.id state.manager.workers ≡ none
    → handle_add_camera save state body
      ≡ ok (
        record { status = created_201; media = json; body = content body },
        save_cameras save state
            (start_worker state.manager body)
            (state.config.cameras ++ (body ∷ [])),
      )
unfolding handle_add_camera save_cameras
created save state body h =
    let e = add_camera-start_worker state.manager body h in
    rw (handle_add_camera, ap (λ r. r.0) e, ap (λ r. r.1) e) refl

taken :
    (save : Config → Bool) (state : AppState) (body : CameraConfig) (e : WorkerEntry)
    → find_worker body.id state.manager.workers ≡ some e
    → handle_add_camera save state body
      ≡ ok (refuse conflict_409 json (failed (config (camera_exists body.id))), state)
unfolding handle_add_camera add_camera
taken save state body e found =
    let q : add_camera state.manager body ≡ (err (config (camera_exists body.id)), state.manager) =
      rw (add_camera, found) refl in
    rw (handle_add_camera, ap (λ r. r.0) q, ap (λ r. r.1) q) refl

-- What adding a camera answers and leaves.
abbrev pub Adds : AppState → CameraConfig → Result (Reply CameraConfig × AppState) → Type 0
Adds state body outcome =
    ((has_id body.id state.config.cameras ≡ true)
      × (outcome ≡ ok (refuse conflict_409 json (failed (config (camera_exists body.id))), state)))
    ⊎ ((has_id body.id state.config.cameras ≡ false)
        × (s : AppState) × (outcome
            ≡ ok (record { status = created_201; media = json; body = content body }, s))
        × (s.config.cameras ≡ state.config.cameras ++ (body ∷ []))
        × InSync s)

-- As long as the configuration and the workers agree, adding a camera is refused with 409 and
-- without effect exactly when a camera of that id is configured; else it answers 201, appends the
-- camera to the configuration, and the two still agree, whether or not the file can be saved.
pub handle_add_camera-Adds :
    (save : Config → Bool) (state : AppState) (body : CameraConfig)
    → InSync state
    → Adds state body (handle_add_camera save state body)
unfolding save_cameras
handle_add_camera-Adds save state body h =
    elim (Option-cases (find_worker body.id state.manager.workers)) [
      | inr (e, found) ↦ inl (
        h.same body.id ∙ find_some-has body.id state.manager.workers e found,
        taken save state body e found,
      )
      | inl none_found ↦
          let free = find-has body.id state.manager.workers none_found in
          inr (
            h.same body.id ∙ free,
            save_cameras save state (start_worker state.manager body)
                (state.config.cameras ++ (body ∷ [])),
            created save state body none_found,
            refl,
            start_worker-InSync save state body h,
          )
    ]

-- What removing a camera answers and leaves.
abbrev pub Removes : AppState → Text → Reply Text × AppState → Type 0
Removes state id outcome =
    ((has_id id state.config.cameras ≡ false)
      × (outcome ≡ (refuse not_found_404 json (camera_not_found id), state)))
    ⊎ ((has_id id state.config.cameras ≡ true)
        × (outcome.0 ≡ answer json id)
        × ((any : Text)
            → has_id any outcome.1.config.cameras
              ≡ (not (bytes_eq id any) && has_id any state.config.cameras))
        × InSync outcome.1)

removed-InSync :
    (save : Config → Bool) (state : AppState) (id : Text) (m : RecordingManager)
    → InSync state
    → m.workers ≡ remove_worker id state.manager.workers
    → InSync (save_cameras save state m (keep (λ c. not (bytes_eq c.id id)) state.config.cameras))
unfolding save_cameras
removed-InSync save state id m h e = record {
  unique = rw e (remove_unique id state.manager.workers h.unique);
  filed = rw e (All-remove IsFiled id state.manager.workers h.filed);
  same = λ other.
      rw
        (
          has_id-keep other id state.config.cameras,
          e,
          has_worker-remove other id state.manager.workers h.unique,
          h.same other,
        )
        refl;
}

-- As long as the configuration and the workers agree, removing a camera answers 404 without effect
-- exactly when no camera of that id is configured; else it answers 200, of the cameras
-- exactly those of another id stay configured, and the two still agree.
pub handle_remove_camera-Removes :
    (save : Config → Bool) (state : AppState) (id : Text)
    → InSync state
    → Removes state id (handle_remove_camera save state id)
unfolding handle_remove_camera remove_camera save_cameras
handle_remove_camera-Removes save state id h =
    elim (Option-cases (find_worker id state.manager.workers)) [
      | inl none_found ↦ inl (
        h.same id ∙ find-has id state.manager.workers none_found,
        rw (handle_remove_camera, remove_camera, none_found) refl,
      )
      | inr (e, found) ↦
          rw (handle_remove_camera, remove_camera, found)
            (inr (
              h.same id ∙ find_some-has id state.manager.workers e found,
              refl,
              (λ any. has_id-keep any id state.config.cameras),
              removed-InSync save state id _ h refl,
            ))
    ]
