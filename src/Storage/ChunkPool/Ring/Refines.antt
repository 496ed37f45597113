-- ===== src/Storage/ChunkPool/Ring/Refines.antt =====
-- `append` stores a segment as the ring says.
use oasis_nvr.Prelude.{
  ℕ, ◌+◌, ◌^◌, ◌≤◌, ◌<◌, ◌≡◌, refl, sym, ap, ◌∙◌, Bool, some, List, [], arith, ltb, ltb-false,
  ltb-false→le, ltb→lt, lt→ltb, length, length-set, get_elem?, add64, inl, inr, Bool-cases,
}
use oasis_nvr.Chrono.{Time, Chrono}
use oasis_nvr.Outcome.{Result, ok}
use oasis_nvr.Storage.ChunkPool.Types.{SegmentLocation, PoolSlot}
use oasis_nvr.Storage.ChunkPool.Record.{Segment, record_size}
use oasis_nvr.Storage.ChunkPool.Record.RoundTrip.{IsStorable}
use oasis_nvr.Storage.ChunkPool.Record.Scan.{layout, total_size}
use oasis_nvr.Storage.ChunkPool.Files.{Store}
use oasis_nvr.Storage.ChunkPool.Pool.{wait_for_readers, rotate, make_room, write_record, append}
use oasis_nvr.Storage.ChunkPool.Pool.Append.{
  next_location, written, new_file, write_record-written, append-written,
}
use oasis_nvr.Storage.ChunkPool.Pool.Rotate.{next_idx, rotated, rotate-rotated}
use oasis_nvr.Storage.ChunkPool.Ring.{View, Ring, stay, advance, ring_append, IsAt, Represents}
use oasis_nvr.Storage.ChunkPool.Ring.Changes.{
  Changed-Represents, Changed-twice, written-Changed, rotated-Changed, put_view-here,
}

-- `append` stored the segment: it answered the location of the segment's record, and the store that
-- it left represents the new ring.
pub record Stores (ch : Chrono) (s : Store) (r : Ring) (seg : Segment)
    (outcome : Result SegmentLocation × Store) : Type 0 where
  pub after : Store
  pub location : SegmentLocation
  pub outcome_is : outcome ≡ (ok location, after)
  pub represents : Represents ch after r
  pub points : IsAt r location seg
  pub in_pool : location.pool_idx ≡ r.current
  pub same_capacity : after.pool.pool_capacity ≡ s.pool.pool_capacity
  pub same_count : length after.pool.slots ≡ length s.pool.slots

-- The ring of these views whose current pool is the one that the store writes to.
abbrev ring_of : Store → (ℕ → View) → Ring
ring_of s f = record { current = s.pool.write_idx; view = f }

module _ (ch : Chrono) (busy : ℕ → Bool) (now : Time) (s : Store) (f : ℕ → View) (seg : Segment)
    (rep : Represents ch s (ring_of s f)) (fit : IsStorable ch seg) where
  -- With room in the current pool the ring stays there.
  stay-Stores :
      total_size (f s.pool.write_idx).segments + record_size seg ≤ s.pool.pool_capacity
      → Stores ch s (stay (ring_of s f) seg) seg (append ch busy now seg s)
  stay-Stores le =
      let v = f s.pool.write_idx in
      let h = rep.holds s.pool.write_idx rep.in_range in
      let room : 64 + (total_size v.segments + record_size seg) < 2 ^ 63 =
        omega (arith, rep.bounded) in
      record {
        after =
            written s v.pool_id v.segments seg (new_file ch s v.pool_id v.segments seg h fit room);
        location = next_location s v.pool_id v.segments seg;
        outcome_is = append-written ch s v.pool_id v.segments seg h fit room busy now le;
        represents =
            Changed-Represents ch s _ (ring_of s f) s.pool.write_idx _ rep rep.in_range (
              written-Changed ch s seg fit rep.bounded v.pool_id v.segments h room rep.in_range le);
        points = record {
          before = v.segments;
          after = [];
          segments_are = ap View.segments (put_view-here f s.pool.write_idx _);
          pool_id_is = sym (ap View.pool_id (put_view-here f s.pool.write_idx _));
          offset_is = refl;
          size_is = refl;
        };
        in_pool = refl;
        same_capacity = refl;
        same_count = length-set s.pool.slots s.pool.write_idx _;
      }

  -- Without room the next pool is taken.
  append-rotated :
      (pool_id : ℕ) (body : List ℕ) (ss : List Segment) (slot : PoolSlot)
      → rotate ch busy now s ≡ (ok (wait_for_readers busy), rotated ch now s pool_id body)
      → get_elem? s.pool.slots s.pool.write_idx ≡ some slot
      → slot.bytes_used ≡ total_size ss
      → record_size seg ≤ s.pool.pool_capacity
      → s.pool.pool_capacity < total_size ss + record_size seg
      → total_size ss + record_size seg < 2 ^ 64
      → append ch busy now seg s ≡ write_record ch seg (rotated ch now s pool_id body)
  unfolding append make_room
  append-rotated pool_id body ss slot e at_slot used le full small =
      let sum : add64 slot.bytes_used (record_size seg) ≡ total_size ss + record_size seg =
        omega arith in
      rw (
        ltb-false s.pool.pool_capacity (record_size seg) le,
        at_slot,
        sum,
        lt→ltb s.pool.pool_capacity (total_size ss + record_size seg) full,
        e,
      )

  advance-Stores :
      record_size seg ≤ s.pool.pool_capacity
      → s.pool.pool_capacity < total_size (f s.pool.write_idx).segments + record_size seg
      → Stores ch s (advance (length s.pool.slots) (ring_of s f) seg) seg (append ch busy now seg s)
  advance-Stores le full =
      let lt : next_idx s < length s.pool.slots = omega (arith, rep.in_range) in
      let v = f (next_idx s) in
      let id = add64 v.pool_id (length s.pool.slots) in
      let h = rep.holds s.pool.write_idx rep.in_range in
      let g = rep.holds (next_idx s) lt in
      let body = layout ch v.segments g.tail in
      let t = rotated ch now s v.pool_id body in
      let c = rotated-Changed ch s seg fit rep.bounded now v.pool_id body lt in
      let small : total_size (f s.pool.write_idx).segments + record_size seg < 2 ^ 64 =
        omega (arith, rep.bounded, rep.within s.pool.write_idx rep.in_range) in
      let le0 : 0 + record_size seg ≤ s.pool.pool_capacity = omega arith in
      let lt' : next_idx s < length t.pool.slots = rw (length-set s.pool.slots (next_idx s) _) lt in
      let room : 64 + (0 + record_size seg) < 2 ^ 63 = omega (arith, rep.bounded) in
      record {
        after = written t id [] seg (new_file ch t id [] seg c.new_view fit room);
        location = next_location t id [] seg;
        outcome_is =
            append-rotated v.pool_id body (f s.pool.write_idx).segments _
              (rotate-rotated ch busy now s _ g.header body g.slot g.file g.header_size) h.slot refl
              le full small
            ∙ write_record-written ch t id [] seg c.new_view fit room;
        represents = Changed-Represents ch s _ (ring_of s f) (next_idx s) _ rep lt (
            Changed-twice ch s t _ (next_idx s) _ _ c
              (written-Changed ch t seg fit rep.bounded id [] c.new_view room lt' le0));
        points = record {
          before = [];
          after = [];
          segments_are = ap View.segments (put_view-here f (next_idx s) _);
          pool_id_is = sym (ap View.pool_id (put_view-here f (next_idx s) _));
          offset_is = refl;
          size_is = refl;
        };
        in_pool = refl;
        same_capacity = refl;
        same_count =
            length-set t.pool.slots (next_idx s) _ ∙ length-set s.pool.slots (next_idx s) _;
      }

-- `append` refines the ring: on a store that represents a ring, a segment that is no larger than a
-- pool is always stored, in the current pool or in the next one, as `ring_append` says; the
-- location that is answered points to it there, and the store that is left represents the new ring,
-- with as many pools of the same capacity.
pub append-Represents :
    (ch : Chrono) (busy : ℕ → Bool) (now : Time) (s : Store) (r : Ring) (seg : Segment)
    → Represents ch s r
    → IsStorable ch seg
    → record_size seg ≤ s.pool.pool_capacity
    → Stores ch s
        (ring_append (length s.pool.slots) s.pool.pool_capacity r seg)
        seg
        (append ch busy now seg s)
unfolding ring_append
append-Represents ch busy now s r seg rep fit le =
    rw (ltb-false s.pool.pool_capacity (record_size seg) le, ← rep.same_current)
      (elim (Bool-cases full) [
        | inl e ↦ rw e (advance-Stores ch busy now s r.view seg here fit le (ltb→lt _ _ e))
        | inr e ↦ rw e (stay-Stores ch busy now s r.view seg here fit (ltb-false→le _ _ e))
      ])
  where
    full : Bool
    full =
        ltb s.pool.pool_capacity (total_size (r.view s.pool.write_idx).segments + record_size seg)

    here : Represents ch s (ring_of s r.view)
    here = record {
      same_current = refl;
      in_range = rw rep.same_current rep.in_range;
      holds = rep.holds;
      within = rep.within;
      bounded = rep.bounded;
    }

pub ring_append-stay :
    (n capacity : ℕ) (r : Ring) (seg : Segment)
    → total_size (r.view r.current).segments + record_size seg ≤ capacity
    → ring_append n capacity r seg ≡ stay r seg
unfolding ring_append
ring_append-stay n capacity r seg le =
    rw (ltb-false capacity (record_size seg) (omega arith), ltb-false capacity _ le) refl

pub ring_append-advance :
    (n capacity : ℕ) (r : Ring) (seg : Segment)
    → record_size seg ≤ capacity
    → capacity < total_size (r.view r.current).segments + record_size seg
    → ring_append n capacity r seg ≡ advance n r seg
unfolding ring_append
ring_append-advance n capacity r seg le full =
    rw (ltb-false capacity (record_size seg) le, lt→ltb capacity _ full) refl

pub ring_append-too_large :
    (n capacity : ℕ) (r : Ring) (seg : Segment)
    → capacity < record_size seg
    → ring_append n capacity r seg ≡ r
unfolding ring_append
ring_append-too_large n capacity r seg large = rw (lt→ltb capacity (record_size seg) large) refl
