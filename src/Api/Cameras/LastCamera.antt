-- ===== src/Api/Cameras/LastCamera.antt =====
-- What becomes of a recorder whose last camera is removed.
use oasis_nvr.Prelude.{
  ◌≡◌, refl, ◌∙◌, Bool, true, false, Option, some, [], ◌∷◌, arith, bytes_eq_refl, inl, inr,
}
use oasis_nvr.Prelude.Cases.{Option-cases}
use oasis_nvr.Utf8.{Text}
use oasis_nvr.Outcome.{config, no_cameras, err}
use oasis_nvr.Config.{CameraConfig, Config, validate, from_file}
use oasis_nvr.Manager.{find_worker, remove_camera}
use oasis_nvr.Api.{AppState}
use oasis_nvr.Api.Cameras.{save_cameras, handle_remove_camera}
use oasis_nvr.Api.Cameras.Tables.{has_id, find-has}
use oasis_nvr.Api.Cameras.Sync.{InSync}

removed_saved :
    (save : Config → Bool) (state : AppState) (c : CameraConfig)
    → InSync state
    → state.config.cameras ≡ c ∷ []
    → ((cfg : Config) → save cfg ≡ true)
    → (handle_remove_camera save state c.id).1.saved.cameras ≡ []
unfolding handle_remove_camera remove_camera save_cameras
removed_saved save state c h one saves =
    elim (Option-cases (find_worker c.id state.manager.workers)) [
      | inl gone ↦
          let no : has_id c.id (c ∷ []) ≡ false =
            rw one at (h.same c.id ∙ find-has c.id state.manager.workers gone) in
          absurd (ground (arith, bytes_eq_refl c.id))
      | inr (e, found) ↦
          rw (handle_remove_camera, remove_camera, found, saves, one, bytes_eq_refl c.id) refl
    ]

-- When the only camera is removed and the configuration is saved, the file holds a configuration
-- that the recorder refuses to start from: whoever loads it gets the error that there are no
-- cameras.
pub handle_remove_camera-from_file :
    (save : Config → Bool) (state : AppState) (c : CameraConfig) (parse : Text → Option Config)
    (text : Text)
    → InSync state
    → state.config.cameras ≡ c ∷ []
    → ((cfg : Config) → save cfg ≡ true)
    → parse text ≡ some (handle_remove_camera save state c.id).1.saved
    → from_file parse (some text) ≡ err (config no_cameras)
unfolding from_file validate
handle_remove_camera-from_file save state c parse text h one saves holds =
    rw (from_file, holds, validate, removed_saved save state c h one saves) refl
