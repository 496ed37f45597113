-- ===== src/Storage/GlobalWriter/Restart/Serving.antt =====
-- The writer's invariant after a restart: the pools represent the ring of the segments as their
-- records keep them, and the index that the scan builds describes it.
use oasis_nvr.Prelude.{
  ℕ, zero, suc, ◌+◌, ◌^◌, ◌≤◌, ◌<◌, ◌≡◌, refl, sym, subst, ap, ◌∙◌, some, List, [], ◌∷◌, ◌++◌,
  append_assoc, arith, All, length, get_elem?, map,
}
use oasis_nvr.Chrono.{Time, Chrono}
use oasis_nvr.Outcome.{ok}
use oasis_nvr.Storage.ChunkPool.Types.{ScannedRecord, PoolSlot}
use oasis_nvr.Storage.ChunkPool.Record.{Segment, record_size}
use oasis_nvr.Storage.ChunkPool.Record.Scan.{total_size, recovered_all}
use oasis_nvr.Storage.ChunkPool.Files.{Store}
use oasis_nvr.Storage.ChunkPool.Open.{scan_all_pools}
use oasis_nvr.Storage.ChunkPool.Open.Restart.{Clean}
use oasis_nvr.Storage.ChunkPool.Pool.Append.{Holds, total_size-snoc}
use oasis_nvr.Storage.ChunkPool.Ring.{View, Ring, IsIn, Represents}
use oasis_nvr.Storage.Index
use oasis_nvr.Storage.Index.{Entry, SegmentIndex, insert, insert_scanned, rebuild_from_scanned}
use oasis_nvr.Storage.Index.Laws.{All-map_insert}
use oasis_nvr.Storage.GlobalWriter.{WriterState, start_index}
use oasis_nvr.Storage.GlobalWriter.Serves.{Describes, Serves}
use oasis_nvr.Storage.GlobalWriter.Restart.{
  location_of, CleanSlots, stored_count, reported, clean-Holds, all_reported,
  scan_all_pools-reported, All-append, All-sort_records,
}
use oasis_nvr.Storage.GlobalWriter.Restart.Kept.{
  as_kept, CutsWell, layout-as_kept, All-as_kept, total_size-as_kept,
}
use oasis_nvr.Storage.GlobalWriter.Restart.Started.{start_index-Recalling}

-- The record lies in its pool and reports one of the segments there.
pub record ReportsFrom (f : ℕ → View) (n : ℕ) (r : ScannedRecord) : Type 0 where
  pub segment : Segment
  pub points : IsIn (f r.pool_idx) (location_of r) segment
  pub in_range : r.pool_idx < n
  pub same_camera : r.camera_id ≡ segment.camera_id
  pub same_start : r.start_ts ≡ segment.start_ts
  pub same_end : r.end_ts ≡ segment.end_ts

-- A pool's view whose segments, as they are kept, are those of `before` and then those of `ss`.
recovered_all-ReportsFrom :
    (f : ℕ → View) (n i id : ℕ) (before ss : List Segment)
    → i < n
    → f i ≡ record { pool_id = id; segments = before ++ map as_kept ss }
    → All (ReportsFrom f n) (recovered_all i id (64 + total_size before) ss)
recovered_all-ReportsFrom f n i id before [] lt e = tt
recovered_all-ReportsFrom f n i id before (x ∷ ss) lt e = (
  record {
    segment = as_kept x;
    points = record {
      before = before;
      after = map as_kept ss;
      segments_are = ap View.segments e;
      pool_id_is = sym (ap View.pool_id e);
      offset_is = refl;
      size_is = refl;
    };
    in_range = lt;
    same_camera = refl;
    same_start = refl;
    same_end = refl;
  },
  subst (λ (o : ℕ). All (ReportsFrom f n) (recovered_all i id o ss)) (behind x)
      (recovered_all-ReportsFrom f n i id (before ++ (as_kept x ∷ [])) ss lt
        (rw (append_assoc before (as_kept x ∷ []) (map as_kept ss)) e)),
)
  where
    behind :
        (y : Segment)
        → 64 + total_size (before ++ (as_kept y ∷ [])) ≡ 64 + total_size before + record_size y
    behind y = omega (arith, total_size-snoc before (as_kept y))

module _ (ch : Chrono) (clock : ℕ → Time) (s : Store) (ids : ℕ → ℕ) where
  -- The segments of each of these pools as their records keep them.
  abbrev pub kept_view :
      (i : ℕ) (slots : List PoolSlot) → CleanSlots ch clock s ids i slots → ℕ → View
  kept_view i [] c k = record { pool_id = 0; segments = [] }
  kept_view i (slot ∷ slots) c zero = record {
    pool_id = ids i;
    segments = map as_kept c.0.segments;
  }
  kept_view i (slot ∷ slots) c (suc k) = kept_view (suc i) slots c.1 k

  -- In none of them the id of a camera was cut inside a character.
  abbrev pub AllCutWell :
      (i : ℕ) (slots : List PoolSlot) → CleanSlots ch clock s ids i slots → Type 0
  AllCutWell i [] c = Unit {0}
  AllCutWell i (slot ∷ slots) c = All CutsWell c.0.segments × AllCutWell (suc i) slots c.1

  abbrev pub kept_ring : CleanSlots ch clock s ids 0 s.pool.slots → Ring
  kept_ring clean = record { current = s.pool.write_idx; view = kept_view 0 s.pool.slots clean }

  pub reported-ReportsFrom :
      (f : ℕ → View) (n i : ℕ) (slots : List PoolSlot) (c : CleanSlots ch clock s ids i slots)
      → ((k : ℕ) → f (i + k) ≡ kept_view i slots c k)
      → i + length slots ≤ n
      → All (ReportsFrom f n) (reported ch clock s ids i slots c)
  reported-ReportsFrom f n i [] c same le = tt
  reported-ReportsFrom f n i (slot ∷ slots) c same le =
      let next : (k : ℕ) → i + suc k ≡ suc i + k = λ k. omega arith in
      let here : i + 0 ≡ i = omega arith in
      All-append (ReportsFrom f n) _ (reported ch clock s ids (suc i) slots c.1)
        (recovered_all-ReportsFrom f n i (ids i) [] c.0.segments (omega arith)
          (ap f (sym here) ∙ same 0))
        (reported-ReportsFrom f n (suc i) slots c.1 (λ k. ap f (sym (next k)) ∙ same (suc k))
          (omega arith))

  module _ (bounded : 64 + s.pool.pool_capacity < 2 ^ 63) where
    kept-Holds :
        (i : ℕ) (slot : PoolSlot) (c : Clean ch clock s.pool.pool_capacity s.disk i (ids i) slot)
        → get_elem? s.pool.slots i ≡ some slot
        → All CutsWell c.segments
        → Holds ch s i (ids i) (map as_kept c.segments)
    kept-Holds i slot c at cut =
        let h = clean-Holds ch clock s ids bounded i slot c at in
        record {
          header = h.header;
          tail = h.tail;
          slot = rw (total_size-as_kept c.segments) h.slot;
          file = rw (layout-as_kept ch c.segments h.tail cut) h.file;
          header_size = h.header_size;
          storable = All-as_kept ch c.segments h.storable;
          fits = rw (total_size-as_kept c.segments) h.fits;
        }

    -- What `Represents` asks of each pool.
    abbrev HoldsView : ℕ → View → Type 0
    HoldsView i v =
        Holds ch s i v.pool_id v.segments × (total_size v.segments ≤ s.pool.pool_capacity)

    kept_view-HoldsView :
        (i : ℕ) (slots : List PoolSlot) (c : CleanSlots ch clock s ids i slots) (k : ℕ)
        → AllCutWell i slots c
        → ((j : ℕ) → get_elem? s.pool.slots (i + j) ≡ get_elem? slots j)
        → k < length slots
        → HoldsView (i + k) (kept_view i slots c k)
    kept_view-HoldsView i [] c k cut at lt = absurd (omega arith)
    kept_view-HoldsView i (slot ∷ slots) c zero cut at lt =
        let here : i ≡ i + 0 = omega arith in
        let at_i : get_elem? s.pool.slots i ≡ some slot = ap (get_elem? s.pool.slots) here ∙ at 0 in
        subst
          (λ (x : ℕ). HoldsView x (record { pool_id = ids i; segments = map as_kept c.0.segments }))
          here (kept-Holds i slot c.0 at_i cut.0, rw (total_size-as_kept c.0.segments) c.0.within)
    kept_view-HoldsView i (slot ∷ slots) c (suc k) cut at lt =
        let next : (j : ℕ) → suc i + j ≡ i + suc j = λ j. omega arith in
        subst (λ (x : ℕ). HoldsView x (kept_view (suc i) slots c.1 k)) (next k)
          (kept_view-HoldsView (suc i) slots c.1 k cut.1
            (λ j. ap (get_elem? s.pool.slots) (next j) ∙ at (suc j)) (omega arith))

    kept_ring-Represents :
        (clean : CleanSlots ch clock s ids 0 s.pool.slots)
        → AllCutWell 0 s.pool.slots clean
        → s.pool.write_idx < length s.pool.slots
        → Represents ch s (kept_ring clean)
    kept_ring-Represents clean cut lt = record {
      same_current = refl;
      in_range = lt;
      holds = λ i l. (all i l).0;
      within = λ i l. (all i l).1;
      bounded = bounded;
    }
      where
        zero_add : (k : ℕ) → 0 + k ≡ k
        zero_add k = omega arith

        all : (i : ℕ) → i < length s.pool.slots → HoldsView i (kept_view 0 s.pool.slots clean i)
        all i l =
            subst (λ (x : ℕ). HoldsView x (kept_view 0 s.pool.slots clean i)) (zero_add i)
              (kept_view-HoldsView 0 s.pool.slots clean i cut
                (λ k. ap (get_elem? s.pool.slots) (zero_add k)) l)

insert_scanned-Describes :
    (r : Ring) (n : ℕ) (rs : List ScannedRecord) (ix : SegmentIndex)
    → All (ReportsFrom r.view n) rs
    → All (Describes r n) ix.entries
    → All (Describes r n) (insert_scanned ix rs).entries
unfolding insert_scanned insert
insert_scanned-Describes r n [] ix from d = d
insert_scanned-Describes r n (x ∷ rs) ix from d = insert_scanned-Describes r n rs _ from.1 (
    All-map_insert (Describes r n) _ ix.entries
      (record {
        segment = from.0.segment;
        points = from.0.points;
        in_range = from.0.in_range;
        same_camera = from.0.same_camera;
        same_start = from.0.same_start;
        same_end = from.0.same_end;
      })
      d)

-- The state with which the writer begins to receive.
abbrev pub restarted : Store → SegmentIndex → WriterState
restarted s ix = record { store = s; index = ix }

-- The index that the writer builds.
abbrev pub rebuilt :
    (ch : Chrono) (clock : ℕ → Time) (s : Store) (ids : ℕ → ℕ)
    → 64 + s.pool.pool_capacity < 2 ^ 63
    → CleanSlots ch clock s ids 0 s.pool.slots
    → SegmentIndex
rebuilt ch clock s ids bounded clean =
    insert_scanned Index.new (all_reported ch clock s ids bounded clean)

pub start_index-rebuilt :
    (ch : Chrono) (clock : ℕ → Time) (s : Store) (ids : ℕ → ℕ)
    (bounded : 64 + s.pool.pool_capacity < 2 ^ 63)
    (clean : CleanSlots ch clock s ids 0 s.pool.slots)
    → start_index (scan_all_pools ch clock s) ≡ ok (rebuilt ch clock s ids bounded clean)
unfolding start_index rebuild_from_scanned
start_index-rebuilt ch clock s ids bounded clean =
    rw (scan_all_pools-reported ch clock s ids bounded clean) refl

-- A restart establishes the writer's invariant: where the pool files are as the recorder left them,
-- with no record of an earlier lap behind their records, the pools represent the ring of the segments
-- as their records keep them, and the index that the writer builds describes that ring. So all that
-- is shown of a writer from its invariant on holds after a restart too. The index has given one id to
-- each stored segment; these must not reach 2^64, and no id of a camera may have been cut
-- inside a character.
pub start_index-Serves :
    (ch : Chrono) (clock : ℕ → Time) (s : Store) (ids : ℕ → ℕ)
    (clean : CleanSlots ch clock s ids 0 s.pool.slots)
    → 64 + s.pool.pool_capacity < 2 ^ 63
    → AllCutWell ch clock s ids 0 s.pool.slots clean
    → s.pool.write_idx < length s.pool.slots
    → stored_count ch clock s ids 0 s.pool.slots clean < 2 ^ 64
    → (ix : SegmentIndex) × (start_index (scan_all_pools ch clock s) ≡ ok ix)
      × Serves ch (restarted s ix) (kept_ring ch clock s ids clean)
      × (ix.segment_counter ≡ stored_count ch clock s ids 0 s.pool.slots clean)
start_index-Serves ch clock s ids clean bounded cut lt few =
    let (ix, run, h) = start_index-Recalling ch clock s ids clean bounded few in
    let built : ok (rebuilt ch clock s ids bounded clean) ≡ ok ix =
      sym (start_index-rebuilt ch clock s ids bounded clean) ∙ run in
    let same : rebuilt ch clock s ids bounded clean ≡ ix = cc in
    let zero_add : (k : ℕ) → 0 + k ≡ k = λ k. omega arith in
    let from =
      reported-ReportsFrom ch clock s ids (kept_view ch clock s ids 0 s.pool.slots clean)
        (length s.pool.slots) 0 s.pool.slots clean
        (λ k. ap (kept_view ch clock s ids 0 s.pool.slots clean) (zero_add k)) (omega arith) in
    (
      ix,
      run,
      record {
        represents = kept_ring-Represents ch clock s ids bounded clean cut lt;
        described = rw (← same) (
            insert_scanned-Describes (kept_ring ch clock s ids clean) (length s.pool.slots) _
              Index.new (All-sort_records (ReportsFrom _ _) _ from) tt);
        valid = h.valid;
      },
      h.given,
    )
