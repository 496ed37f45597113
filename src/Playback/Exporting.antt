-- ===== src/Playback/Exporting.antt =====
-- What an export from the pool that the writer fills hands to the remuxer.
use oasis_nvr.Prelude.{
  ℕ, suc, ◌≡◌, refl, true, some, none, List, [], ◌∷◌, ◌++◌, All, length, All-keep, map,
}
use oasis_nvr.Utf8.{Text}
use oasis_nvr.Chrono.{Time, Chrono}
use oasis_nvr.Outcome.{NvrError, ok, err, ◌>>=◌}
use oasis_nvr.Storage.ChunkPool.Files.{Store}
use oasis_nvr.Storage.ChunkPool.Pool.{read_segment_data}
use oasis_nvr.Storage.ChunkPool.Ring.{Ring}
use oasis_nvr.Storage.Index.{SegmentMeta, Entry, SegmentIndex, segments_in_range}
use oasis_nvr.Storage.GlobalWriter.{WriterState}
use oasis_nvr.Storage.GlobalWriter.Serves.{Serves, IsReadable, Serves-IsReadable}
use oasis_nvr.Playback.{Surroundings, stage_from, remux_staged, export_range}

-- The files have the data at the segments' locations, in the order of the segments.
abbrev pub Reads : Store → List SegmentMeta → List (List ℕ) → Type 0
Reads s [] [] = Unit
Reads s (m ∷ ms) (f ∷ fs) = (read_segment_data m.location s ≡ (ok f, s)) × Reads s ms fs
Reads s [] (f ∷ fs) = ⊥
Reads s (m ∷ ms) [] = ⊥

stage_from-Reads :
    (env : Surroundings) (w : WriterState) (i : ℕ) (ms : List SegmentMeta)
    → ((k : ℕ) → env.stage k ≡ true)
    → All (IsReadable w) ms
    → (files : List (List ℕ)) × (stage_from env w.store i ms ≡ (ok tt, files))
      × Reads w.store ms files
unfolding stage_from
stage_from-Reads env w i [] staged h = ([], refl, tt)
stage_from-Reads env w i (m ∷ ms) staged h =
    let (files, e, reads) = stage_from-Reads env w (suc i) ms staged h.1 in
    (h.0.segment.bytes ∷ files, rw (stage_from, h.0.reads, staged i, e) refl, (h.0.reads, reads))

All-map {κ} :
    (P : SegmentMeta → Type κ) (es : List Entry)
    → All (λ e. P e.1) es
    → All P (map (λ (e : Entry). e.1) es)
All-map P [] h = tt
All-map P (e ∷ es) h = (h.0, All-map P es h.1)

in_range-IsReadable :
    (w : WriterState) (camera : Text) (from to : Time)
    → All (λ e. IsReadable w e.1) w.index.entries
    → All (IsReadable w) (segments_in_range w.index camera from to)
unfolding segments_in_range
in_range-IsReadable w camera from to h =
    All-keep (IsReadable w) _ _ (All-map (IsReadable w) w.index.entries h)

-- While the writer's invariant holds, an export for which the index lists segments in the range
-- never fails on the pool: it gives the remuxer the data of exactly these segments, in the order of
-- the index, answers their number if remuxing succeeds, and leaves no staged file. GStreamer must
-- start, and the temporary directory and its files be writable and removable.
pub export_range-Reads :
    (ch : Chrono) (env : Surroundings) (w : WriterState) (r : Ring) (camera : Text) (from to : Time)
    (seg : SegmentMeta) (segs : List SegmentMeta)
    → Serves ch w r
    → segments_in_range w.index camera from to ≡ seg ∷ segs
    → env.gst_init ≡ true
    → env.make_dir ≡ true
    → ((k : ℕ) → env.stage k ≡ true)
    → env.remove_dir ≡ true
    → (files : List (List ℕ)) × Reads w.store (seg ∷ segs) files
      × (export_range env w.store w.index camera from to ≡ record {
        outcome = (env.remux files).0 >>= λ done. ok (length (seg ∷ segs));
        output = (env.remux files).1;
        left = none;
      })
unfolding export_range remux_staged
export_range-Reads ch env w r camera from to seg segs h listed gst dir staged gone =
    let readable = in_range-IsReadable w camera from to (Serves-IsReadable ch w r h) in
    let (files, e, reads) = stage_from-Reads env w 0 (seg ∷ segs) staged (rw listed at readable) in
    (files, reads, rw (export_range, listed, e, gst, dir, gone) refl)

-- The loop up to a segment that cannot be read.
stage_from-fails :
    (env : Surroundings) (s : Store) (i : ℕ) (before : List SegmentMeta) (bad : SegmentMeta)
    (behind : List SegmentMeta) (files : List (List ℕ)) (e : NvrError)
    → ((k : ℕ) → env.stage k ≡ true)
    → Reads s before files
    → read_segment_data bad.location s ≡ (err e, s)
    → stage_from env s i (before ++ (bad ∷ behind)) ≡ (err e, files)
unfolding stage_from
stage_from-fails env s i [] bad behind [] e staged h f = rw (stage_from, f) refl
stage_from-fails env s i [] bad behind (x ∷ files) e staged h f = absurd h
stage_from-fails env s i (m ∷ ms) bad behind [] e staged h f = absurd h
stage_from-fails env s i (m ∷ ms) bad behind (x ∷ files) e staged h f =
    rw
      (stage_from, h.0, staged i, stage_from-fails env s (suc i) ms bad behind files e staged h.1 f)
      refl

-- A segment that cannot be read, wherever it stands among the segments of the range, ends the export
-- with that error, without output, and the files of all segments before it, which could be read and
-- staged, stay in the temporary directory.
pub export_range-leaves :
    (env : Surroundings) (s : Store) (index : SegmentIndex) (camera : Text) (from to : Time)
    (before : List SegmentMeta) (bad : SegmentMeta) (behind : List SegmentMeta)
    (files : List (List ℕ)) (e : NvrError)
    → segments_in_range index camera from to ≡ before ++ (bad ∷ behind)
    → Reads s before files
    → read_segment_data bad.location s ≡ (err e, s)
    → env.gst_init ≡ true
    → env.make_dir ≡ true
    → ((k : ℕ) → env.stage k ≡ true)
    → export_range env s index camera from to
      ≡ record { outcome = err e; output = none; left = some files }
unfolding export_range remux_staged
export_range-leaves env s index camera from to [] bad behind files e listed h f gst dir staged =
    rw (export_range, listed, stage_from-fails env s 0 [] bad behind files e staged h f, gst, dir)
      refl
export_range-leaves env s index camera from to (m ∷ ms) bad behind files e listed h f gst dir
      staged =
    rw
      (
        export_range,
        listed,
        stage_from-fails env s 0 (m ∷ ms) bad behind files e staged h f,
        gst,
        dir,
      )
      refl
