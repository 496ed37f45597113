-- ===== src/Storage/ChunkPool/Pool/Append.antt =====
-- What `append` does to the write slot and its file, on each branch.
use oasis_nvr.Prelude.{
  ℕ, suc, ◌+◌, ◌-◌, ◌^◌, ◌≤◌, ◌<◌, ◌≡◌, refl, sym, ap, ◌∙◌, Bool, some, List, [], ◌∷◌, ◌++◌, arith,
  append_assoc, length, length-append, drop, take-append_length, add64, ltb-false, lt→ltb,
  get_elem?, set, All, get_elem?-set_self, ==_self,
}
use oasis_nvr.Chrono.{Time, Chrono}
use oasis_nvr.Outcome.{storage, segment_too_large, ok, err}
use oasis_nvr.Storage.ChunkPool.Types.{SegmentLocation}
use oasis_nvr.Storage.ChunkPool.Record.{Segment, record_size, encode_record}
use oasis_nvr.Storage.ChunkPool.Record.RoundTrip.{IsStorable, length-encode_record}
use oasis_nvr.Storage.ChunkPool.Record.Scan.{layout, total_size}
use oasis_nvr.Storage.ChunkPool.Files.{Store, write_at, write_disk}
use oasis_nvr.Storage.ChunkPool.Pool.{make_room, write_record, append}

pub drop_past : (xs ys : List ℕ) (k : ℕ) → drop (length xs + k) (xs ++ ys) ≡ drop k ys
drop_past [] ys k = ap (λ (n : ℕ). drop n ys) (omega arith)
drop_past (x ∷ xs) ys k =
    ap (λ (n : ℕ). drop n (x ∷ (xs ++ ys))) (suc_add (length xs) k) ∙ drop_past xs ys k
  where
    suc_add : (n m : ℕ) → suc n + m ≡ suc (n + m)
    suc_add n m = omega arith

-- Writing just behind a prefix replaces as many bytes as are written.
write_at-append :
    (xs bytes ys : List ℕ) (n : ℕ)
    → length xs ≡ n
    → write_at n bytes (xs ++ ys) ≡ xs ++ (bytes ++ drop (length bytes) ys)
unfolding write_at
write_at-append xs bytes ys n e =
    let gap : length xs - length (xs ++ ys) ≡ 0 = omega (arith, length-append xs ys) in
    rw (← e, gap, take-append_length xs ys, drop_past xs ys (length bytes))

pub layout-append :
    (ch : Chrono) (ss : List Segment) (tail : List ℕ) → layout ch ss tail ≡ layout ch ss [] ++ tail
layout-append ch [] tail = refl
layout-append ch (s ∷ ss) tail =
    ap (◌++◌ (encode_record ch s)) (layout-append ch ss tail)
    ∙ sym (append_assoc (encode_record ch s) (layout ch ss []) tail)

pub layout-snoc :
    (ch : Chrono) (ss : List Segment) (s : Segment) (tail : List ℕ)
    → layout ch (ss ++ (s ∷ [])) tail ≡ layout ch ss (encode_record ch s ++ tail)
layout-snoc ch [] s tail = refl
layout-snoc ch (x ∷ ss) s tail = ap (◌++◌ (encode_record ch x)) (layout-snoc ch ss s tail)

pub length-layout :
    (ch : Chrono) (ss : List Segment)
    → All (IsStorable ch) ss
    → length (layout ch ss []) ≡ total_size ss
length-layout ch [] fit = refl
length-layout ch (s ∷ ss) fit = omega (
  arith,
  length-append (encode_record ch s) (layout ch ss []),
  length-encode_record ch s,
  length-layout ch ss fit.1,
  fit.0.length_fits,
)

-- The slot at `idx` of a store holds these segments: its file is a header of 64 bytes, their
-- records, and a rest, and `bytes_used` counts the records.
pub record Holds (ch : Chrono) (s : Store) (idx pool_id : ℕ) (ss : List Segment) : Type 0 where
  pub header : List ℕ
  pub tail : List ℕ
  pub slot :
      get_elem? s.pool.slots idx ≡ some (record { pool_id = pool_id; bytes_used = total_size ss })
  pub file : s.disk idx ≡ some (header ++ layout ch ss tail)
  pub header_size : length header ≡ 64
  pub storable : All (IsStorable ch) ss
  pub fits : 64 + total_size ss < 2 ^ 63

pub total_size-snoc :
    (ss : List Segment) (s : Segment) → total_size (ss ++ (s ∷ [])) ≡ total_size ss + record_size s
total_size-snoc [] s = omega arith
total_size-snoc (x ∷ ss) s = omega (arith, total_size-snoc ss s)

All-snoc {ℓ κ} :
    {A : Type ℓ} (P : A → Type κ) (xs : List A) (x : A) → All P xs → P x → All P (xs ++ (x ∷ []))
All-snoc P [] x h p = (p, tt)
All-snoc P (y ∷ ys) x h p = (h.0, All-snoc P ys x h.1 p)

-- The location that `write_record` answers for the next segment.
abbrev pub next_location : Store → ℕ → List Segment → Segment → SegmentLocation
next_location s pool_id ss seg = record {
  pool_idx = s.pool.write_idx;
  pool_id = pool_id;
  record_offset = 64 + total_size ss;
  record_size = record_size seg;
}

-- The store after it.
abbrev pub written : Store → ℕ → List Segment → Segment → List ℕ → Store
written s pool_id ss seg file = record {
  pool = record s.pool {
    slots =
        set s.pool.slots s.pool.write_idx
          (record { pool_id = pool_id; bytes_used = total_size ss + record_size seg });
  };
  disk = write_disk s.disk s.pool.write_idx file;
}

module _ (ch : Chrono) (s : Store) (pool_id : ℕ) (ss : List Segment) (seg : Segment)
    (h : Holds ch s s.pool.write_idx pool_id ss) (fit : IsStorable ch seg)
    (room : 64 + (total_size ss + record_size seg) < 2 ^ 63) where
  abbrev pub new_file : List ℕ
  new_file =
      h.header ++ layout ch ss (encode_record ch seg ++ drop (length (encode_record ch seg)) h.tail)

  file-eq :
      write_at (64 + total_size ss) (encode_record ch seg) (h.header ++ layout ch ss h.tail)
      ≡ new_file
  file-eq =
      rw (layout-append ch ss h.tail, ← append_assoc h.header (layout ch ss []) h.tail)
        (write_at-append (h.header ++ layout ch ss []) (encode_record ch seg) h.tail
            (64 + total_size ss)
            (omega (
              arith,
              length-append h.header (layout ch ss []),
              length-layout ch ss h.storable,
              h.header_size,
            ))
          ∙ append_assoc h.header (layout ch ss []) _
          ∙ ap (◌++◌ h.header) (sym (layout-append ch ss _)))

  pub write_record-written :
      write_record ch seg s
      ≡ (ok (next_location s pool_id ss seg), written s pool_id ss seg new_file)
  unfolding write_record
  write_record-written =
      let offset : add64 64 (total_size ss) ≡ 64 + total_size ss = omega arith in
      let used : add64 (total_size ss) (record_size seg) ≡ total_size ss + record_size seg =
        omega arith in
      rw (h.slot, offset, h.file, offset, file-eq, used)

  -- The slot that `write_record` wrote to holds the new segment behind the others.
  pub write_record-Holds :
      (s.pool.write_idx < length s.pool.slots)
      → Holds ch (written s pool_id ss seg new_file) s.pool.write_idx pool_id (ss ++ (seg ∷ []))
  write_record-Holds lt = record {
    header = h.header;
    tail = drop (length (encode_record ch seg)) h.tail;
    slot = rw (total_size-snoc ss seg) (get_elem?-set_self s.pool.slots s.pool.write_idx _ lt);
    file = rw (==_self s.pool.write_idx, layout-snoc ch ss seg);
    header_size = h.header_size;
    storable = All-snoc (IsStorable ch) ss seg h.storable fit;
    fits = rw (total_size-snoc ss seg) room;
  }

  -- A pool without room for the segment is the only case in which `append` rotates; with room it is
  -- `write_record`.
  pub append-written :
      (busy : ℕ → Bool) (now : Time)
      → total_size ss + record_size seg ≤ s.pool.pool_capacity
      → append ch busy now seg s
        ≡ (ok (next_location s pool_id ss seg), written s pool_id ss seg new_file)
  unfolding append make_room
  append-written busy now le =
      let used : add64 (total_size ss) (record_size seg) ≡ total_size ss + record_size seg =
        omega arith in
      rw
        (
          ltb-false s.pool.pool_capacity (record_size seg) (omega arith),
          h.slot,
          used,
          ltb-false s.pool.pool_capacity (total_size ss + record_size seg) le,
        )
        write_record-written

-- A segment that is larger than a pool is refused, and nothing is changed, whatever the pool holds.
pub append-too_large :
    (ch : Chrono) (busy : ℕ → Bool) (now : Time) (seg : Segment) (s : Store)
    → s.pool.pool_capacity < record_size seg
    → append ch busy now seg s
      ≡ (err (storage (segment_too_large (record_size seg) s.pool.pool_capacity)), s)
unfolding append
append-too_large ch busy now seg s h = rw (lt→ltb s.pool.pool_capacity (record_size seg) h)

-- With room in the write slot, `append` succeeds without rotating, whatever readers there are: its
-- location starts where the slot's records ended, and the slot then holds the new segment behind
-- the old ones.
pub append-Holds :
    (ch : Chrono) (s : Store) (pool_id : ℕ) (ss : List Segment) (seg : Segment) (busy : ℕ → Bool)
    (now : Time)
    → Holds ch s s.pool.write_idx pool_id ss
    → IsStorable ch seg
    → 64 + (total_size ss + record_size seg) < 2 ^ 63
    → total_size ss + record_size seg ≤ s.pool.pool_capacity
    → s.pool.write_idx < length s.pool.slots
    → (s' : Store) × (append ch busy now seg s ≡ (ok (next_location s pool_id ss seg), s'))
      × (s'.pool.write_idx ≡ s.pool.write_idx)
      × Holds ch s' s.pool.write_idx pool_id (ss ++ (seg ∷ []))
append-Holds ch s pool_id ss seg busy now h fit room le lt = (
  written s pool_id ss seg (new_file ch s pool_id ss seg h fit room),
  append-written ch s pool_id ss seg h fit room busy now le,
  refl,
  write_record-Holds ch s pool_id ss seg h fit room lt,
)
