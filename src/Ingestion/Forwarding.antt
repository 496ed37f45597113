-- ===== src/Ingestion/Forwarding.antt =====
-- What the worker waits for, and what it forwards.
use oasis_nvr.Prelude.{
  ℕ, zero, suc, ◌+◌, ◌≤◌, ◌≡◌, ◌≢◌, refl, sym, ap, ◌∙◌, Bool, true, false, Option, none, some, List,
  [], ◌∷◌, ◌++◌, arith, append_assoc, append-nil, ◌==◌, if◌then◌else◌, All, Ordered, inl, inr,
  Bool-cases,
}
use oasis_nvr.Prelude.Cases.{Option-cases}
use oasis_nvr.Camera.{SegmentReady}
use oasis_nvr.Storage.GlobalWriter.{WriteRequest}
use oasis_nvr.Ingestion.{
  Stability, missing, stable, still_changing, wait_loop, wait_for_file_stable, Spool, without,
  CameraWorker, Conditions, write_request, forward_segment, drain_stream, run,
}

-- What the wait says of the sizes that it saw, the last of them by question number `n`.
abbrev pub Means : (ℕ → Option ℕ) → ℕ → Stability → Type 0
Means size n missing = (k : ℕ) × (n ≡ suc k) × (size k ≡ none)
Means size n stable = (k : ℕ) × (n ≡ suc (suc k)) × (size (suc k) ≡ size k) × (size k ≢ none)
Means size n still_changing = n ≡ 31

wait_loop-Means :
    (size : ℕ → Option ℕ) (left last k : ℕ)
    → size k ≡ some last
    → left + k ≡ 30
    → Means size (wait_loop size left last (suc k)).1 (wait_loop size left last (suc k)).0
      × ((wait_loop size left last (suc k)).1 ≤ 31)
unfolding wait_loop
wait_loop-Means size zero last k e h = (omega arith, omega arith)
wait_loop-Means size (suc left) last k e h = elim (Option-cases (size (suc k))) [
  | inl gone ↦ rw (wait_loop, gone) ((suc k, refl, gone), omega arith)
  | inr (now, there) ↦
      rw (wait_loop, there)
        (elim (Bool-cases (now == last)) [
          | inl same ↦
              let q : now ≡ last = ground arith in
              rw same
                ((k, refl, there ∙ ap some q ∙ sym e, λ n. absurd (ground arith)), omega arith)
          | inr other ↦ rw other (wait_loop-Means size left now (suc k) there (omega arith))
        ])
]

-- The wait for a file asks for its size at most 31 times. It calls the file stable only when the
-- last two answers were the same size, it stops early without that only when the file is missing,
-- and it gives up only after the 31st question.
pub wait_for_file_stable_bounds :
    (size : ℕ → Option ℕ)
    → Means size (wait_for_file_stable size).1 (wait_for_file_stable size).0
      × ((wait_for_file_stable size).1 ≤ 31)
unfolding wait_for_file_stable
wait_for_file_stable_bounds size = elim (Option-cases (size 0)) [
  | inl gone ↦ rw (wait_for_file_stable, gone) ((0, refl, gone), omega arith)
  | inr (last, there) ↦ rw (wait_for_file_stable, there) (wait_loop-Means size 30 last 0 there refl)
]

-- Each segment has its file, with these bytes.
abbrev pub HasFiles : (ℕ → Option (List ℕ)) → List SegmentReady → List (List ℕ) → Type 0
HasFiles files [] [] = Unit
HasFiles files (s ∷ ss) (b ∷ bs) = (files s.path ≡ some b) × HasFiles files ss bs
HasFiles files [] (b ∷ bs) = ⊥
HasFiles files (s ∷ ss) [] = ⊥

abbrev pub requests : CameraWorker → List SegmentReady → List (List ℕ) → List WriteRequest
requests worker [] bs = []
requests worker (s ∷ ss) [] = []
requests worker (s ∷ ss) (b ∷ bs) = write_request worker s b ∷ requests worker ss bs

abbrev pub PathsDiffer : SegmentReady → SegmentReady → Type 0
PathsDiffer a b = a.path ≢ b.path

-- Files under other paths stay when one is removed.
without-HasFiles :
    (files : ℕ → Option (List ℕ)) (removed : Bool) (seg : SegmentReady) (ss : List SegmentReady)
    (bs : List (List ℕ))
    → All (PathsDiffer seg) ss
    → HasFiles files ss bs
    → HasFiles (if removed then without files seg.path else files) ss bs
without-HasFiles files false seg ss bs d h = h
without-HasFiles files true seg [] [] d h = h
without-HasFiles files true seg [] (b ∷ bs) d h = h
without-HasFiles files true seg (s ∷ ss) [] d h = h
without-HasFiles files true seg (s ∷ ss) (b ∷ bs) d h =
    let other : (seg.path == s.path) ≡ false = ground (arith, d.0) in
    (rw other h.0, without-HasFiles files true seg ss bs d.1 h.1)

forwarded :
    (worker : CameraWorker) (c : Conditions) (seg : SegmentReady) (s : Spool) (b : List ℕ)
    → c.receiving ≡ true
    → s.files seg.path ≡ some b
    → forward_segment worker c seg s ≡ record {
      files = if c.removable seg.path then without s.files seg.path else s.files;
      queue = s.queue ++ (write_request worker seg b ∷ []);
    }
unfolding forward_segment
forwarded worker c seg s b up there = rw (forward_segment, there, up) refl

drain_stream-requests :
    (worker : CameraWorker) (c : Conditions) (segs : List SegmentReady) (bs : List (List ℕ))
    (s : Spool)
    → c.receiving ≡ true
    → Ordered PathsDiffer segs
    → HasFiles s.files segs bs
    → (drain_stream worker c segs s).queue ≡ s.queue ++ requests worker segs bs
unfolding drain_stream
drain_stream-requests worker c [] bs s up d h = sym (append-nil s.queue)
drain_stream-requests worker c (seg ∷ segs) [] s up d h = absurd h
drain_stream-requests worker c (seg ∷ segs) (b ∷ bs) s up d h =
    rw (drain_stream, forwarded worker c seg s b up h.0)
      (drain_stream-requests worker c segs bs _ up d.1
          (without-HasFiles s.files (c.removable seg.path) seg segs bs d.0 h.1)
        ∙ append_assoc s.queue (write_request worker seg b ∷ []) (requests worker segs bs))

-- If the segments of its stream have different files that can be read, and the writer receives, the
-- worker forwards every segment once, in the order in which they come and behind what waits already,
-- each with its own bytes and times under the worker's camera. It does not matter whether the files
-- can be removed.
pub run-requests :
    (worker : CameraWorker) (c : Conditions) (stream : List SegmentReady) (bs : List (List ℕ))
    (s : Spool)
    → c.receiving ≡ true
    → Ordered PathsDiffer stream
    → HasFiles s.files stream bs
    → (run worker c (some stream) s).queue ≡ s.queue ++ requests worker stream bs
unfolding run
run-requests worker c stream bs s up d h = drain_stream-requests worker c stream bs s up d h
