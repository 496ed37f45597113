-- ===== src/Main/Start/Ends.antt =====
-- What `run_record` does with the workers when it ends.
use oasis_nvr.Prelude.{ℕ, ◌<◌, ◌≡◌, ◌⊎◌, refl, Bool, true, false, ◌&&◌, inl, inr, Bool-cases}
use oasis_nvr.Config.{Config}
use oasis_nvr.Manager.{RecordingManager}
use oasis_nvr.Manager.Tasks.{is_aborted}
use oasis_nvr.Manager.Shutdown.{Managed, shutdown-aborts}
use oasis_nvr.Main.Start.{end_record}

-- At the end of `run_record`, either the API was enabled and its server is still running, and then
-- no task is aborted that was not aborted before; or every worker task that was ever spawned has
-- been aborted, provided that the cameras of the configuration have different ids.
pub end_record-aborts :
    (cfg : Config) (serving : Bool) (m : RecordingManager) (h : ℕ)
    → Managed m
    → h < m.next
    → (((cfg.api.enabled && serving) ≡ true) × (end_record cfg serving m ≡ m.calls))
      ⊎ (((cfg.api.enabled && serving) ≡ false) × (is_aborted h (end_record cfg serving m) ≡ true))
unfolding end_record
end_record-aborts cfg serving m h r lt = elim (Bool-cases (cfg.api.enabled && serving)) [
  | inl t ↦ inl (t, rw (end_record, t) refl)
  | inr f ↦ inr (f, rw (end_record, f) (shutdown-aborts m h r lt))
]
