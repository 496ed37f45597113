-- ===== src/Playback.antt =====
-- src/playback.rs: `export_range`. Whether a file can be staged, and the bytes that come of remuxing
-- the staged ones, are arguments: the model keeps the bytes that are staged, and in which order. The
-- calls of `remux_segments` are in `Remux`.
pub mod Exporting
pub mod Remux
use oasis_nvr.Prelude.{
  ℕ, zero, suc, Bool, true, false, not, Option, none, some, List, [], ◌∷◌, if◌then◌else◌, length,
}
use oasis_nvr.Chrono.{Time}
use oasis_nvr.Utf8.{Text}
use oasis_nvr.Outcome.{gstreamer, io, storage, no_segments, Result, ok, err, panic, ◌>>=◌}
use oasis_nvr.Storage.ChunkPool.Files.{Store}
use oasis_nvr.Storage.ChunkPool.Pool.{read_segment_data}
use oasis_nvr.Storage.Index.{SegmentIndex, SegmentMeta, segments_in_range}

-- What the export meets outside: whether GStreamer starts, the temporary directory can be made, the
-- i-th file can be written there, and the directory can be removed; and what remuxing files with
-- these bytes answers, with the output file that is there afterwards, also where it failed.
pub record Surroundings : Type 0 where
  pub gst_init : Bool
  pub make_dir : Bool
  pub stage : ℕ → Bool
  pub remove_dir : Bool
  pub remux : List (List ℕ) → Result (Unit {0}) × Option (List ℕ)

-- The result of the function, the output file if the remuxer made one, and the staged files that are left in
-- the temporary directory, if it is left.
pub record Exported : Type 0 where
  pub outcome : Result ℕ
  pub output : Option (List ℕ)
  pub left : Option (List (List ℕ))

abbrev failed_early : Result ℕ → Exported
failed_early r = record { outcome = r; output = none; left = none }

-- The loop over the segments, from number `i` on: how it ends, and the files that it staged.
unfoldable pub stage_from :
    Surroundings → Store → ℕ → List SegmentMeta → Result (Unit {0}) × List (List ℕ)
stage_from env s i [] = (ok tt, [])
stage_from env s i (seg ∷ segs) =
    let rest = stage_from env s (suc i) segs in
    elim (read_segment_data seg.location s).0 [
      | ok bytes ↦ if env.stage i then (rest.0, bytes ∷ rest.1) else (err io, [])
      | err e ↦ (err e, [])
      | panic ↦ (panic, [])
    ]

-- The rest of the function once the loop has ended.
unfoldable pub remux_staged : Surroundings → ℕ → Result (Unit {0}) × List (List ℕ) → Exported
remux_staged env count (ok u, files) = record {
  outcome = (env.remux files).0 >>= λ done. ok count;
  output = (env.remux files).1;
  left = if env.remove_dir then none else some files;
}
remux_staged env count (err e, files) = record { outcome = err e; output = none; left = some files }
remux_staged env count (panic, files) = record { outcome = panic; output = none; left = some files }

unfoldable pub export_range : Surroundings → Store → SegmentIndex → Text → Time → Time → Exported
export_range env s index camera_id from to =
    if not env.gst_init
    then failed_early (err gstreamer)
    else (let segments = segments_in_range index camera_id from to in
        elim segments [
          | [] ↦ failed_early (err (storage no_segments))
          | seg ∷ segs ↦
              if not env.make_dir
              then failed_early (err io)
              else remux_staged env (length (seg ∷ segs)) (stage_from env s 0 (seg ∷ segs))
        ])
