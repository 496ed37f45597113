-- ===== src/Storage/Index/Ranges.antt =====
-- The queries of the index: which segments they give, and in which order.
use oasis_nvr.Prelude.{
  ℕ, ◌≤◌, ◌<◌, ◌≡◌, ◌↔◌, ◌∙◌, sym, Bool, true, false, ◌&&◌, List, [], ◌∷◌, arith, map, ltb,
  bytes_eq, bytes_eq→eq, bytes_eq_refl, Bool-cases, inl, inr, keep, All, Ordered, Ordered-keep,
  keep-All, refl,
}
use mathlib.Core.List.{Memᴰ}
use mathlib.Core.List.Memᴰ as Memᴰ
use oasis_nvr.Chrono.{Time}
use oasis_nvr.Utf8.{Text}
use oasis_nvr.Storage.Index.{
  SegmentMeta, Entry, SegmentIndex, text_lt, key_lt, all_segments, segments_in_range,
}
use oasis_nvr.Storage.Index.Laws.{IsFiled, Before, IsValid}

text_lt_irrefl : (a : Text) → text_lt a a ≡ false
unfolding text_lt
text_lt_irrefl [] = refl
text_lt_irrefl (x ∷ xs) = ground (arith, text_lt_irrefl xs)

-- Of two segments of one camera the first starts no later.
abbrev pub Chronological : SegmentMeta → SegmentMeta → Type 0
Chronological a b = a.camera_id ≡ b.camera_id → a.start_ts ≤ b.start_ts

Before-Chronological :
    (n : ℕ) (e f : Entry) → IsFiled n e → IsFiled n f → Before e f → Chronological e.1 f.1
unfolding key_lt
Before-Chronological n e f p q h same =
    ground (
      arith,
      p.same_camera,
      p.same_start,
      q.same_camera,
      q.same_start,
      text_lt_irrefl f.0.camera_id,
    )

All-Chronological :
    (n : ℕ) (e : Entry) (es : List Entry)
    → IsFiled n e
    → All (IsFiled n) es
    → All (Before e) es
    → All (Chronological e.1) (map (λ (f : Entry). f.1) es)
All-Chronological n e [] p q h = tt
All-Chronological n e (f ∷ fs) p q h =
    (Before-Chronological n e f p q.0 h.0, All-Chronological n e fs p q.1 h.1)

entries-Chronological :
    (n : ℕ) (es : List Entry)
    → All (IsFiled n) es
    → Ordered Before es
    → Ordered Chronological (map (λ (e : Entry). e.1) es)
entries-Chronological n [] p h = tt
entries-Chronological n (e ∷ es) p h =
    (All-Chronological n e es p.0 p.1 h.0, entries-Chronological n es p.1 h.1)

-- What a query for a camera and a range gives of each segment.
abbrev pub Overlaps : Text → Time → Time → SegmentMeta → Type 0
Overlaps camera from to m = (m.camera_id ≡ camera) × (m.start_ts < to) × (from < m.end_ts)

overlapping :
    (camera : Text) (from to : Time) (ms : List SegmentMeta)
    → All (λ m. (bytes_eq m.camera_id camera && (ltb m.start_ts to && ltb from m.end_ts)) ≡ true) ms
    → All (Overlaps camera from to) ms
overlapping camera from to [] h = tt
overlapping camera from to (m ∷ ms) h = (
  (ground (arith, h.0, bytes_eq→eq m.camera_id camera), ground (arith, h.0), ground (arith, h.0)),
  overlapping camera from to ms h.1,
)

abbrev pub StartsBefore : SegmentMeta → SegmentMeta → Type 0
StartsBefore a b = a.start_ts ≤ b.start_ts

sorted-one :
    (camera : Text) (from to : Time) (m : SegmentMeta) (ms : List SegmentMeta)
    → m.camera_id ≡ camera
    → All (Overlaps camera from to) ms
    → All (Chronological m) ms
    → All (StartsBefore m) ms
sorted-one camera from to m [] e o c = tt
sorted-one camera from to m (x ∷ xs) e o c =
    (c.0 (e ∙ sym o.0.0), sorted-one camera from to m xs e o.1 c.1)

sorted :
    (camera : Text) (from to : Time) (ms : List SegmentMeta)
    → All (Overlaps camera from to) ms
    → Ordered Chronological ms
    → Ordered StartsBefore ms
sorted camera from to [] o c = tt
sorted camera from to (m ∷ ms) o c =
    (sorted-one camera from to m ms o.0.0 o.1 c.0, sorted camera from to ms o.1 c.1)

keep-Memᴰ {ℓ} :
    {A : Type ℓ} (p : A → Bool) (a : A) (xs : List A) → p a ≡ true → Memᴰ a xs → Memᴰ a (keep p xs)
keep-Memᴰ p a [] h k = absurd (Memᴰ.not-nil k)
keep-Memᴰ p a (x ∷ xs) h (Memᴰ.head e) = let q : p x ≡ true = rw (← e) h in rw q (Memᴰ.head e)
keep-Memᴰ p a (x ∷ xs) h (Memᴰ.tail k) = elim (Bool-cases (p x)) [
  | inl t ↦ rw t (Memᴰ.tail (keep-Memᴰ p a xs h k))
  | inr f ↦ rw f (keep-Memᴰ p a xs h k)
]

Memᴰ-keep {ℓ} :
    {A : Type ℓ} (p : A → Bool) (a : A) (xs : List A)
    → Memᴰ a (keep p xs)
    → Memᴰ a xs × (p a ≡ true)
Memᴰ-keep p a [] k = absurd (Memᴰ.not-nil k)
Memᴰ-keep p a (x ∷ xs) k = elim (Bool-cases (p x)) [
  | inl t ↦ elim (Memᴰ.cases_cons (rw t at k)) [
    | inl e ↦ (Memᴰ.head e, rw e t)
    | inr m ↦ let (listed, holds) = Memᴰ-keep p a xs m in (Memᴰ.tail listed, holds)
  ]
  | inr f ↦ let (listed, holds) = Memᴰ-keep p a xs (rw f at k) in (Memᴰ.tail listed, holds)
]

-- A query of a valid index for a camera and a range gives exactly the segments of that camera that
-- start before the end of the range and end after its start, ordered by their start.
pub segments_in_range-sorted :
    (ix : SegmentIndex) (camera : Text) (from to : Time) (m : SegmentMeta)
    → IsValid ix
    → (Memᴰ m (segments_in_range ix camera from to)
        ↔ (Memᴰ m (all_segments ix) × Overlaps camera from to m))
      × Ordered StartsBefore (segments_in_range ix camera from to)
unfolding segments_in_range
segments_in_range-sorted ix camera from to m v = (
  (
    (λ k.
        let (listed, holds) = Memᴰ-keep _ m (all_segments ix) k in
        (listed, (overlapping camera from to (m ∷ []) (holds, tt)).0)),
    (λ k.
        keep-Memᴰ _ m (all_segments ix) (ground (arith, k.1.0, k.1.1, k.1.2, bytes_eq_refl camera))
          k.0),
  ),
  sorted camera from to _ (overlapping camera from to _ (keep-All _ (all_segments ix))) (
      Ordered-keep Chronological _ (all_segments ix)
        (entries-Chronological ix.segment_counter ix.entries v.filed v.ordered)),
)
