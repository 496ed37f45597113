-- ===== src/Storage/ChunkPool/Ring.antt =====
-- What the pools of src/storage/chunk_pool.rs promise their clients: a ring of pools, each with an
-- id and the segments stored in it, where a segment goes to the current pool while that has room
-- and else replaces what the next pool held. `Represents` relates a store to the ring.
pub mod Stale
pub mod Changes
pub mod Refines
pub mod Retains
use oasis_nvr.Prelude.{
  ℕ, ◌+◌, ◌%◌, ◌^◌, ◌≤◌, ◌<◌, ◌≡◌, List, [], ◌∷◌, ◌++◌, ltb, ◌==◌, if◌then◌else◌, length, add64,
}
use oasis_nvr.Chrono.{Chrono}
use oasis_nvr.Storage.ChunkPool.Types.{SegmentLocation}
use oasis_nvr.Storage.ChunkPool.Record.{Segment, record_size}
use oasis_nvr.Storage.ChunkPool.Record.Scan.{total_size}
use oasis_nvr.Storage.ChunkPool.Files.{Store}
use oasis_nvr.Storage.ChunkPool.Pool.Append.{Holds}

-- The segments of one pool, oldest first.
pub record View : Type 0 where
  pub pool_id : ℕ
  pub segments : List Segment

pub record Ring : Type 0 where
  pub current : ℕ
  pub view : ℕ → View

abbrev pub put_view : (ℕ → View) → ℕ → View → ℕ → View
put_view f i v j = if i == j then v else f j

-- The segment behind the others of the current pool.
abbrev pub stay : Ring → Segment → Ring
stay r seg = record r {
  view = put_view r.view r.current (record {
    pool_id = (r.view r.current).pool_id;
    segments = (r.view r.current).segments ++ (seg ∷ []);
  });
}

-- The segment alone in the next of `n` pools.
abbrev pub advance : ℕ → Ring → Segment → Ring
advance n r seg =
    let next = (r.current + 1) % n in
    record {
      current = next;
      view =
          put_view r.view next
            (record { pool_id = add64 (r.view next).pool_id n; segments = seg ∷ [] });
    }

-- What storing a segment means, with `n` pools of `capacity` bytes.
unfoldable pub ring_append : ℕ → ℕ → Ring → Segment → Ring
ring_append n capacity r seg =
    if ltb capacity (record_size seg)
    then r
    else (if ltb capacity (total_size (r.view r.current).segments + record_size seg)
        then advance n r seg
        else stay r seg)

-- Storing segments one after the other.
abbrev pub ring_run : ℕ → ℕ → Ring → List Segment → Ring
ring_run n capacity r [] = r
ring_run n capacity r (seg ∷ segs) = ring_run n capacity (ring_append n capacity r seg) segs

-- The location points to the record of the segment among those of a pool.
pub record IsIn (v : View) (loc : SegmentLocation) (seg : Segment) : Type 0 where
  pub before : List Segment
  pub after : List Segment
  pub segments_are : v.segments ≡ before ++ (seg ∷ after)
  pub pool_id_is : loc.pool_id ≡ v.pool_id
  pub offset_is : loc.record_offset ≡ 64 + total_size before
  pub size_is : loc.record_size ≡ record_size seg

abbrev pub IsAt : Ring → SegmentLocation → Segment → Type 0
IsAt r loc seg = IsIn (r.view loc.pool_idx) loc seg

-- Each pool of the store holds the segments that the ring has there, within its capacity.
pub record Represents (ch : Chrono) (s : Store) (r : Ring) : Type 0 where
  pub same_current : s.pool.write_idx ≡ r.current
  pub in_range : r.current < length s.pool.slots
  pub holds :
      (i : ℕ) → i < length s.pool.slots → Holds ch s i (r.view i).pool_id (r.view i).segments
  pub within :
      (i : ℕ) → i < length s.pool.slots → total_size (r.view i).segments ≤ s.pool.pool_capacity
  pub bounded : 64 + s.pool.pool_capacity < 2 ^ 63
