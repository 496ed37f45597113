-- ===== src/Tests/RecordingTests.antt =====
-- The theorem from a stream's signals to the API's answer at a concrete stream.
use oasis_nvr.Prelude.{
  ℕ, ◌≡◌, refl, false, true, none, some, Option, List, [], ◌∷◌, arith, ◌==◌, if◌then◌else◌,
  bytes_eq, ◌&&◌, ◌⊎◌,
}
use oasis_nvr.Outcome.{ok}
use oasis_nvr.Storage.GlobalWriter.{WriterState, writer_loop}
use oasis_nvr.Camera.{connected, signal_effects}
use oasis_nvr.Manager.{
  RecordingManager, start_workers, start_worker, find_worker, insert_worker, add_camera,
}
use oasis_nvr.Manager.Tasks.{is_aborted}
use oasis_nvr.Manager.Shutdown.{Managed, started, added}
use oasis_nvr.Main.Start.{end_record}
use oasis_nvr.Main.Start.Ends.{end_record-aborts}
use oasis_nvr.Ingestion.{CameraWorker, Conditions, run, write_request}
use oasis_nvr.Api.{mp4, answer}
use oasis_nvr.Api.Media.{handle_hls_segment}
use oasis_nvr.Api.Media.Serving.{serving}
use oasis_nvr.Main.Recording.{sent, stream-served}
use oasis_nvr.Tests.Fixtures.{calendar, cam1, cam2}
use oasis_nvr.Tests.StorageTests.{never}
use oasis_nvr.Tests.WriterTests.{
  two_views_ring, full_writer, full_writer-Serves, long, long-IsStorable,
}
use oasis_nvr.Tests.ApiTests.{state, small, camera}

-- The second fragment of the stream is `long`.
abbrev files : ℕ → Option (List ℕ)
files path = if path == 1 then some long.bytes else none

abbrev worker : CameraWorker
worker = record { camera_id = cam2 }

abbrev calm : Conditions
calm = record { removable = λ path. true; receiving = true }

-- A camera is added to one that is configured, and the server never ran.
abbrev one_camera : RecordingManager
one_camera = start_workers (record { workers = []; next = 0; calls = [] }) (camera cam1 ∷ [])

abbrev two_cameras : RecordingManager
two_cameras = (add_camera one_camera (camera cam2)).1

two_cameras-Managed : Managed two_cameras
two_cameras-Managed = added (camera cam2) (started (camera cam1 ∷ []) (tt, tt))

end_record-aborts_example :
    (((small.api.enabled && false) ≡ true)
      × (end_record small false two_cameras ≡ two_cameras.calls))
    ⊎ (((small.api.enabled && false) ≡ false)
        × (is_aborted 1 (end_record small false two_cameras) ≡ true))
unfolding add_camera start_workers start_worker find_worker insert_worker bytes_eq
end_record-aborts_example =
    end_record-aborts small false two_cameras 1 two_cameras-Managed (omega arith)

stream-served_example :
    (v : WriterState) × (writer_loop calendar
        (λ k. never)
        (λ k. 0)
        0
        full_writer
        (run worker calm
          (some (
            sent
              (signal_effects
                (connected 0)
                ((0, 0) ∷ (1, long.start_ts) ∷ (2, long.end_ts) ∷ [])).0))
          (record { files = files; queue = [] })).queue
      ≡ ok v)
    × (id : ℕ) × (handle_hls_segment (serving state v) cam2 id
        ≡ ok (answer mp4 long.bytes, state.read_counters))
unfolding write_request
stream-served_example =
    stream-served calendar (λ k. never) (λ k. 0) full_writer two_views_ring state worker calm files
      0 0 0 1 long.start_ts ((2, long.end_ts) ∷ []) (long.bytes ∷ []) [] long [] refl (tt, tt)
      (refl, tt) refl full_writer-Serves (long-IsStorable, tt) (omega arith, tt) (omega arith)
      (omega arith) refl (omega arith, (omega arith, tt))
