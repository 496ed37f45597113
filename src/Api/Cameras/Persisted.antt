-- ===== src/Api/Cameras/Persisted.antt =====
-- What the next start knows of a camera that was added.
use oasis_nvr.Prelude.{◌≡◌, refl, Bool, true, false, Option, none, List, [], ◌∷◌, ◌++◌, arith}
use oasis_nvr.Utf8.{Text}
use oasis_nvr.Outcome.{Result, ok, err, panic}
use oasis_nvr.Config.{CameraConfig, Config, is_nil, validate, from_file, save_to_file}
use oasis_nvr.Config.File.{Storing, from_file-save_to_file}
use oasis_nvr.Manager.{RecordingManager, find_worker, start_worker, add_camera}
use oasis_nvr.Api.{AppState, Reply, created_201, json, content}
use oasis_nvr.Api.Cameras.{save_cameras, handle_add_camera}

abbrev pub succeeds {ℓ} : {A : Type ℓ} → Result A → Bool
succeeds (ok a) = true
succeeds (err e) = false
succeeds panic = false

is_nil-snoc : (cs : List CameraConfig) (c : CameraConfig) → is_nil (cs ++ (c ∷ [])) ≡ false
is_nil-snoc [] c = refl
is_nil-snoc (x ∷ cs) c = refl

validate-add :
    (cfg : Config) (c : CameraConfig)
    → validate cfg ≡ ok tt
    → validate (record cfg { cameras = cfg.cameras ++ (c ∷ []) }) ≡ ok tt
unfolding validate
validate-add cfg c h = ground (arith, is_nil-snoc cfg.cameras c)

add_camera-new :
    (m : RecordingManager) (c : CameraConfig)
    → find_worker c.id m.workers ≡ none
    → add_camera m c ≡ (ok tt, start_worker m c)
unfolding add_camera
add_camera-new m c new = rw (add_camera, new) refl

-- The configuration with one more camera.
abbrev pub with_camera : Config → CameraConfig → Config
with_camera cfg c = record cfg { cameras = cfg.cameras ++ (c ∷ []) }

-- A camera that is added through the API is there after the next start: where no worker has its id
-- and the configuration is valid, adding it and saving to the file leaves a file from which the
-- recorder loads the configuration with that camera behind the others, the same that the API then
-- works with. The save must succeed; a serialized configuration parse back; and a write that succeeds
-- leave what was written.
pub handle_add_camera-from_file :
    (parse : Text → Option Config) (serialize : Config → Option Text)
    (write : Text → Option Text → Bool × Option Text) (state : AppState) (body : CameraConfig)
    (file : Option Text)
    → Storing parse serialize write
    → find_worker body.id state.manager.workers ≡ none
    → validate state.config ≡ ok tt
    → (save_to_file serialize write (with_camera state.config body) file).0 ≡ ok tt
    → (reply : Reply CameraConfig) × (after : AppState) × (handle_add_camera
          (λ c. succeeds (save_to_file serialize write c file).0)
          state
          body
        ≡ ok (reply, after))
      × (after.config.cameras ≡ state.config.cameras ++ (body ∷ []))
      × (from_file parse (save_to_file serialize write after.config file).1 ≡ ok after.config)
      × (after.saved ≡ after.config)
unfolding handle_add_camera save_cameras
handle_add_camera-from_file parse serialize write state body file laws new valid saved =
    let cfg = with_camera state.config body in
    let added = add_camera-new state.manager body new in
    (
      record { status = created_201; media = json; body = content body },
      record state { config = cfg; saved = cfg; manager = start_worker state.manager body },
      rw (handle_add_camera, added, added, save_cameras, saved) refl,
      refl,
      from_file-save_to_file parse serialize write laws cfg file saved
          (validate-add state.config body valid),
      refl,
    )
