-- ===== src/Storage/ChunkPool/Ring/Changes.antt =====
-- What a change of one slot and its file means for the ring that a store represents.
use oasis_nvr.Prelude.{
  ℕ, ◌+◌, ◌^◌, ◌≤◌, ◌<◌, ◌≡◌, append_assoc, ◌≢◌, refl, ap, ◌∙◌, false, List, [], ◌∷◌, ◌++◌, arith,
  ◌==◌, ==_self, length, length-set, get_elem?, get_elem?-set_self, get_elem?-set_ne, add64, inl,
  inr, Bool-cases,
}
use oasis_nvr.Chrono.{Time, Chrono}
use oasis_nvr.Storage.ChunkPool.Types.{SegmentLocation}
use oasis_nvr.Storage.ChunkPool.Record.{Segment, record_size}
use oasis_nvr.Storage.ChunkPool.Record.RoundTrip.{IsStorable}
use oasis_nvr.Storage.ChunkPool.Record.Scan.{total_size}
use oasis_nvr.Storage.ChunkPool.Files.{Store}
use oasis_nvr.Storage.ChunkPool.Pool.{pool_header}
use oasis_nvr.Storage.ChunkPool.Pool.Append.{
  Holds, total_size-snoc, written, new_file, write_record-Holds,
}
use oasis_nvr.Storage.ChunkPool.Pool.Rotate.{next_idx, rotated, length-pool_header}
use oasis_nvr.Storage.ChunkPool.Ring.{View, Ring, put_view, IsIn, Represents}

-- A slot and a file that stay the same hold what they held.
pub Holds-same :
    (ch : Chrono) (s t : Store) (i pool_id : ℕ) (ss : List Segment)
    → get_elem? t.pool.slots i ≡ get_elem? s.pool.slots i
    → t.disk i ≡ s.disk i
    → Holds ch s i pool_id ss
    → Holds ch t i pool_id ss
Holds-same ch s t i pool_id ss slots disk h = record {
  header = h.header;
  tail = h.tail;
  slot = slots ∙ h.slot;
  file = disk ∙ h.file;
  header_size = h.header_size;
  storable = h.storable;
  fits = h.fits;
}

pub ==_ne : (i j : ℕ) → i ≢ j → (i == j) ≡ false
==_ne i j h = ground arith

-- A store that differs from one which represents a ring in one slot and its file only.
pub record Changed (ch : Chrono) (s t : Store) (i : ℕ) (v : View) : Type 0 where
  pub current_is : t.pool.write_idx ≡ i
  pub capacity_kept : t.pool.pool_capacity ≡ s.pool.pool_capacity
  pub count_kept : length t.pool.slots ≡ length s.pool.slots
  pub other_slots : (j : ℕ) → i ≢ j → get_elem? t.pool.slots j ≡ get_elem? s.pool.slots j
  pub other_files : (j : ℕ) → i ≢ j → t.disk j ≡ s.disk j
  pub new_view : Holds ch t i v.pool_id v.segments
  pub new_within : total_size v.segments ≤ s.pool.pool_capacity

pub put_view-cases {κ} :
    (P : View → Type κ) (f : ℕ → View) (i j : ℕ) (v : View)
    → (i ≡ j → P v)
    → (i ≢ j → P (f j))
    → P (put_view f i v j)
put_view-cases P f i j v here there = elim (Bool-cases (i == j)) [
  | inl e ↦ rw e (here (ground arith))
  | inr e ↦ rw e (there (λ q. ground arith))
]

pub Changed-Represents :
    (ch : Chrono) (s t : Store) (r : Ring) (i : ℕ) (v : View)
    → Represents ch s r
    → i < length s.pool.slots
    → Changed ch s t i v
    → Represents ch t (record { current = i; view = put_view r.view i v })
Changed-Represents ch s t r i v rep lt c = record {
  same_current = c.current_is;
  in_range = omega (arith, c.count_kept);
  holds = λ j in_t.
      put_view-cases (λ u. Holds ch t j u.pool_id u.segments) r.view i j v (λ e. rw e at c.new_view)
        (λ h.
          Holds-same ch s t j (r.view j).pool_id (r.view j).segments (c.other_slots j h)
            (c.other_files j h) (rep.holds j (omega (arith, c.count_kept))));
  within = λ j in_t. rw c.capacity_kept (
      put_view-cases (λ u. total_size u.segments ≤ s.pool.pool_capacity) r.view i j v
        (λ e. c.new_within) (λ h. rep.within j (omega (arith, c.count_kept))));
  bounded = rw c.capacity_kept rep.bounded;
}

module _ (ch : Chrono) (s : Store) (seg : Segment) (fit : IsStorable ch seg)
    (bounded : 64 + s.pool.pool_capacity < 2 ^ 63) where
  -- The store that `write_record` leaves.
  pub written-Changed :
      (pool_id : ℕ) (ss : List Segment) (h : Holds ch s s.pool.write_idx pool_id ss)
      (room : 64 + (total_size ss + record_size seg) < 2 ^ 63)
      → s.pool.write_idx < length s.pool.slots
      → total_size ss + record_size seg ≤ s.pool.pool_capacity
      → Changed ch s
          (written s pool_id ss seg (new_file ch s pool_id ss seg h fit room))
          s.pool.write_idx
          (record { pool_id = pool_id; segments = ss ++ (seg ∷ []) })
  written-Changed pool_id ss h room lt le = record {
    current_is = refl;
    capacity_kept = refl;
    count_kept = length-set s.pool.slots s.pool.write_idx _;
    other_slots = λ j ne. get_elem?-set_ne s.pool.slots s.pool.write_idx j _ ne;
    other_files = λ j ne. rw (==_ne s.pool.write_idx j ne) refl;
    new_view = write_record-Holds ch s pool_id ss seg h fit room lt;
    new_within = rw (total_size-snoc ss seg) le;
  }

  -- The store that `rotate` leaves.
  pub rotated-Changed :
      (now : Time) (pool_id : ℕ) (body : List ℕ)
      → next_idx s < length s.pool.slots
      → Changed ch s
          (rotated ch now s pool_id body)
          (next_idx s)
          (record { pool_id = add64 pool_id (length s.pool.slots); segments = [] })
  rotated-Changed now pool_id body lt = record {
    current_is = refl;
    capacity_kept = refl;
    count_kept = length-set s.pool.slots (next_idx s) _;
    other_slots = λ j ne. get_elem?-set_ne s.pool.slots (next_idx s) j _ ne;
    other_files = λ j ne. rw (==_ne (next_idx s) j ne) refl;
    new_view = record {
      header = pool_header ch (add64 pool_id (length s.pool.slots)) now;
      tail = body;
      slot = get_elem?-set_self s.pool.slots (next_idx s) _ lt;
      file = rw (==_self (next_idx s)) refl;
      header_size = length-pool_header ch (add64 pool_id (length s.pool.slots)) now;
      storable = tt;
      fits = omega arith;
    };
    new_within = omega arith;
  }

-- Two changes of one slot are one change of it.
pub Changed-twice :
    (ch : Chrono) (s t u : Store) (i : ℕ) (v w : View)
    → Changed ch s t i v
    → Changed ch t u i w
    → Changed ch s u i w
Changed-twice ch s t u i v w a b = record {
  current_is = b.current_is;
  capacity_kept = b.capacity_kept ∙ a.capacity_kept;
  count_kept = b.count_kept ∙ a.count_kept;
  other_slots = λ j ne. b.other_slots j ne ∙ a.other_slots j ne;
  other_files = λ j ne. b.other_files j ne ∙ a.other_files j ne;
  new_view = b.new_view;
  new_within = rw (← a.capacity_kept) b.new_within;
}

pub put_view-here : (f : ℕ → View) (i : ℕ) (v : View) → put_view f i v i ≡ v
put_view-here f i v = rw (==_self i) refl

-- A segment stays where it is when others are stored behind it.
pub IsIn-snoc :
    (v : View) (loc : SegmentLocation) (seg new : Segment)
    → IsIn v loc seg
    → IsIn (record { pool_id = v.pool_id; segments = v.segments ++ (new ∷ []) }) loc seg
IsIn-snoc v loc seg new h = record {
  before = h.before;
  after = h.after ++ (new ∷ []);
  segments_are =
      ap (λ (ss : List Segment). ss ++ (new ∷ [])) h.segments_are
      ∙ append_assoc h.before (seg ∷ h.after) (new ∷ []);
  pool_id_is = h.pool_id_is;
  offset_is = h.offset_is;
  size_is = h.size_is;
}
