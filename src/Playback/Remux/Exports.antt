-- ===== src/Playback/Remux/Exports.antt =====
-- An export with the pipeline that it builds: `export_range` and `remux_segments` together.
use oasis_nvr.Prelude.{
  ℕ, suc, ◌≡◌, ◌≢◌, ◌⊎◌, refl, ap, Bool, true, false, arith, none, some, Option, List, [], ◌∷◌,
  ◌++◌, All, length, inl, inr,
}
use oasis_nvr.Utf8.{Text}
use oasis_nvr.Chrono.{Time, Chrono}
use oasis_nvr.Outcome.{gstreamer, Result, ok, err, panic}
use oasis_nvr.Storage.ChunkPool.Ring.{Ring}
use oasis_nvr.Storage.Index.{SegmentMeta, segments_in_range}
use oasis_nvr.Storage.GlobalWriter.{WriterState}
use oasis_nvr.Storage.GlobalWriter.Serves.{Serves}
use oasis_nvr.Playback.{Surroundings, Exported, export_range}
use oasis_nvr.Playback.Exporting.{Reads, export_range-Reads}
use oasis_nvr.Playback.Remux.{
  Call, Popped, eos, pipeline_error, timed_out, other_message, wait, remux_segments,
}
use oasis_nvr.Playback.Remux.Plan.{plan, remux_segments-plan}

-- GStreamer during an export: what succeeds, the message that comes, the names of the staged files,
-- that of the output, the bytes that GStreamer muxes from files with these bytes, and what is at the
-- name of the output after a run that failed: the sink makes the file when it starts.
pub record Remuxer : Type 0 where
  pub works : Call → Bool
  pub popped : Popped
  pub seg_path : ℕ → Text
  pub output_path : Text
  pub mux : List (List ℕ) → List ℕ
  pub unfinished : List (List ℕ) → Option (List ℕ)

abbrev pub paths_from : (ℕ → Text) → ℕ → List (List ℕ) → List Text
paths_from name i [] = []
paths_from name i (file ∷ files) = name i ∷ paths_from name (suc i) files

-- The result with the output file.
abbrev with_output :
    Remuxer → List (List ℕ) → Result (Unit {0}) → Result (Unit {0}) × Option (List ℕ)
with_output g files (ok u) = (ok u, some (g.mux files))
with_output g files (err e) = (err e, g.unfinished files)
with_output g files panic = (panic, g.unfinished files)

-- The calls that are planned for these files.
abbrev pub planned : Remuxer → List (List ℕ) → List Call
planned g files = plan (paths_from g.seg_path 0 files) g.output_path

-- What remuxing answers and leaves: the muxed bytes, if the pipeline comes to its end.
unfoldable pub remux_with : Remuxer → List (List ℕ) → Result (Unit {0}) × Option (List ℕ)
remux_with g files =
    with_output g files
      (remux_segments g.works g.popped (paths_from g.seg_path 0 files) g.output_path).1

-- Every planned call succeeds and the stream comes to its end.
abbrev pub Succeeds : Remuxer → List (List ℕ) → Type 0
Succeeds g files = All (λ c. g.works c ≡ true) (planned g files) × (g.popped ≡ eos)

-- A planned call fails, or the message that comes is not that of the end.
abbrev pub Fails : Remuxer → List (List ℕ) → Type 0
Fails g files =
    ((before : List Call) × (failing : Call) × (behind : List Call) × (planned g files
        ≡ before ++ (failing ∷ behind))
      × (g.works failing ≡ false))
    ⊎ (g.popped ≢ eos)

abbrev Remuxes : Remuxer → List (List ℕ) → Result (Unit {0}) × Option (List ℕ) → Type 0
Remuxes g files r =
    (Succeeds g files × (r ≡ (ok tt, some (g.mux files))))
    ⊎ (Fails g files × (r ≡ (err gstreamer, g.unfinished files)))

waited :
    (g : Remuxer) (files : List (List ℕ)) (popped : Popped)
    → popped ≢ other_message
    → ((popped ≡ eos) × (with_output g files (wait g.works popped).1 ≡ (ok tt, some (g.mux files))))
      ⊎ ((popped ≢ eos)
          × (with_output g files (wait g.works popped).1 ≡ (err gstreamer, g.unfinished files)))
waited g files eos h = inl (refl, refl)
waited g files pipeline_error h = inr ((λ e. absurd (ground arith)), refl)
waited g files timed_out h = inr ((λ e. absurd (ground arith)), refl)
waited g files other_message h = absurd (h refl)

remux_with-Remuxes :
    (g : Remuxer) (files : List (List ℕ))
    → g.popped ≢ other_message
    → Remuxes g files (remux_with g files)
unfolding remux_with
remux_with-Remuxes g files h =
    elim (remux_segments-plan g.works g.popped (paths_from g.seg_path 0 files) g.output_path) [
      | inr b ↦ inr (
        inl (b.before, b.failing, b.never_made, b.plan_is, b.fails),
        rw (remux_with, b.run_is) refl,
      )
      | inl c ↦ elim (waited g files g.popped h) [
        | inl (end, e) ↦ inl ((c.all_work, end), rw (remux_with, c.run_is) e)
        | inr (other, e) ↦ inr (inr other, rw (remux_with, c.run_is) e)
      ]
    ]

-- How an export with this remuxer ends.
abbrev pub Ends : Remuxer → List (List ℕ) → ℕ → Exported → Type 0
Ends g files count x =
    (Succeeds g files
      × (x ≡ record { outcome = ok count; output = some (g.mux files); left = none }))
    ⊎ (Fails g files
        × (x ≡ record { outcome = err gstreamer; output = g.unfinished files; left = none }))

-- While the writer's invariant holds, an export for which the index lists segments in the range, and
-- whose files can be staged and removed, hands the data of exactly these segments to the remuxer, in
-- the order of the index, and leaves no staged file. It answers the number of the segments, and the
-- output is what GStreamer muxes from this data, where every planned call succeeds and the stream
-- comes to its end; where a planned call fails or another message comes, it answers an error of
-- GStreamer, and at the output's name is left what GStreamer had made of it. GStreamer must start,
-- and the message be one of those that the wait asks for.
pub export_range-Ends :
    (ch : Chrono) (g : Remuxer) (env : Surroundings) (w : WriterState) (r : Ring) (camera : Text)
    (from to : Time) (seg : SegmentMeta) (segs : List SegmentMeta)
    → Serves ch w r
    → segments_in_range w.index camera from to ≡ seg ∷ segs
    → env.gst_init ≡ true
    → env.make_dir ≡ true
    → ((k : ℕ) → env.stage k ≡ true)
    → env.remove_dir ≡ true
    → env.remux ≡ remux_with g
    → g.popped ≢ other_message
    → (files : List (List ℕ)) × Reads w.store (seg ∷ segs) files
      × Ends g files (length (seg ∷ segs)) (export_range env w.store w.index camera from to)
export_range-Ends ch g env w r camera from to seg segs h listed gst dir staged gone by filtered =
    let (files, reads, e) =
      export_range-Reads ch env w r camera from to seg segs h listed gst dir staged gone in
    (
      files,
      reads,
      rw e (elim (remux_with-Remuxes g files filtered) [
        | inl (succeeds, is) ↦ inl (succeeds, rw (ap (λ f. f files) by, is) refl)
        | inr (fails, is) ↦ inr (fails, rw (ap (λ f. f files) by, is) refl)
      ]),
    )
