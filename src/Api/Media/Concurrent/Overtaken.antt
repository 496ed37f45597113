-- ===== src/Api/Media/Concurrent/Overtaken.antt =====
-- A handler that the writer overtakes between its lookup and its read.
use oasis_nvr.Prelude.{
  ℕ, ◌+◌, ◌%◌, ◌≤◌, ◌<◌, ◌≡◌, refl, sym, ap, ◌∙◌, Bool, true, some, [], arith, ltb→lt, ◌==◌, length,
  if◌then◌else◌,
}
use oasis_nvr.Utf8.{Text}
use oasis_nvr.Chrono.{Time, Chrono}
use oasis_nvr.Outcome.{ok}
use oasis_nvr.Storage.ChunkPool.Types.{SegmentLocation}
use oasis_nvr.Storage.ChunkPool.Record.{record_size}
use oasis_nvr.Storage.ChunkPool.Record.RoundTrip.{IsStorable}
use oasis_nvr.Storage.ChunkPool.Files.{Store}
use oasis_nvr.Storage.ChunkPool.Pool.{append, read_segment_data}
use oasis_nvr.Storage.ChunkPool.Ring.{Ring, IsIn, advance, Represents}
use oasis_nvr.Storage.ChunkPool.Ring.Changes.{put_view-cases}
use oasis_nvr.Storage.ChunkPool.Ring.Refines.{ring_append-advance}
use oasis_nvr.Storage.Index.{SegmentMeta, evict_pool, segments_for_camera, find_segment}
use oasis_nvr.Storage.GlobalWriter.{WriteRequest, WriterState}
use oasis_nvr.Storage.GlobalWriter.Serves.{Serves, read-IsIn}
use oasis_nvr.Api.{mp4, answer}
use oasis_nvr.Api.Media.{read_reply}
use oasis_nvr.Api.Media.Concurrent.{
  idle, inserting, asking, located, answered, System, is_full, next_pool, look_up, overtake, Reach,
  here, next, receive, store_segment, look, read,
}
use oasis_nvr.Api.Media.Concurrent.Moves.{after_append, is_full_is, append-Appended}
use oasis_nvr.Api.Media.Concurrent.Safe.{evict-is}

-- The segment that opens a pool lies at its beginning.
advance-IsIn :
    (r : Ring) (n : ℕ) (req : WriteRequest) (loc : SegmentLocation)
    → (r.current + 1) % n ≡ loc.pool_idx
    → loc.record_offset ≡ 64
    → loc.record_size ≡ record_size req
    → IsIn
        ((advance n r req).view loc.pool_idx)
        (record loc { pool_id = ((advance n r req).view loc.pool_idx).pool_id })
        req
advance-IsIn r n req loc there offset size =
    put_view-cases (λ v. IsIn v (record loc { pool_id = v.pool_id }) req) r.view
      ((r.current + 1) % n) loc.pool_idx _
      (λ i. record {
        before = [];
        after = [];
        segments_are = refl;
        pool_id_is = refl;
        offset_is = offset;
        size_is = size;
      })
      (λ other. absurd (other there))

-- Where a request opened the next pool, a location there of the same offset and size reads it, under
-- whatever pool id it was given out.
opened-read :
    (ch : Chrono) (s : Store) (r : Ring) (req : WriteRequest) (rep : Represents ch s r)
    (fit : IsStorable ch req) (busy : ℕ → Bool) (now : Time) (loc : SegmentLocation)
    → is_full s.pool req ≡ true
    → record_size req ≤ s.pool.pool_capacity
    → loc.pool_idx ≡ next_pool s.pool
    → loc.record_offset ≡ 64
    → loc.record_size ≡ record_size req
    → (read_segment_data loc (append ch busy now req s).1).0 ≡ ok req.bytes
unfolding read_segment_data
opened-read ch s r req rep fit busy now loc full small at offset size =
    let a = append-Appended ch s r req rep fit busy now in
    let q : Ring = after_append ch s r req rep fit in
    let is : q ≡ advance (length s.pool.slots) r req =
      ring_append-advance (length s.pool.slots) s.pool.pool_capacity r req small
        (ltb→lt _ _ (sym (is_full_is ch s r req rep fit) ∙ full)) in
    let there : (r.current + 1) % length s.pool.slots ≡ loc.pool_idx =
      sym (at ∙ rw rep.same_current refl) in
    let now_loc : SegmentLocation = record loc { pool_id = (q.view loc.pool_idx).pool_id } in
    let lt : loc.pool_idx < length (append ch busy now req s).1.pool.slots =
      rw (a.same_count, at) (omega (arith, rep.in_range)) in
    let points : IsIn (q.view loc.pool_idx) now_loc req =
      rw is (advance-IsIn r (length s.pool.slots) req loc there offset size) in
    ap (λ o. o.0) (read-IsIn ch (append ch busy now req s).1 q now_loc req a.represents lt points)

-- A handler that is overtaken answers with another segment. Let the index list a segment under the
-- camera and the id, in the pool that is taken next and at its beginning, and let a request come that
-- no longer fits into the current pool and whose record is as long as the segment's. Then there is a
-- run, from the writer's invariant on, in which the handler looks the segment up, the writer evicts
-- and appends, and the handler then answers 200 with the bytes of that request.
pub Reach-overtake :
    (ch : Chrono) (w : WriterState) (r : Ring) (camera : Text) (id : ℕ) (m : SegmentMeta)
    (req : WriteRequest) (busy : ℕ → Bool) (now : Time)
    → Serves ch w r
    → find_segment id (segments_for_camera w.index camera) ≡ some m
    → IsStorable ch req
    → is_full w.store.pool req ≡ true
    → record_size req ≤ w.store.pool.pool_capacity
    → m.location.pool_idx ≡ next_pool w.store.pool
    → m.location.record_offset ≡ 64
    → m.location.record_size ≡ record_size req
    → (t : System) × Reach ch
        (record { store = w.store; index = w.index; phase = idle; reader = asking camera id })
        t
      × (t.reader ≡ answered camera true (ok (answer mp4 req.bytes)))
Reach-overtake ch w r camera id m req busy now h found fit full small at offset size = (
  finished,
  next
      (next
        (next (next here (look camera id refl refl))
          (receive req _ refl fit (evict-is ch looked r req h.represents fit) refl))
        (store_segment req busy now refl refl))
      (read camera id m true is_located refl),
  ap (λ x. answered camera true (read_reply x))
      (opened-read ch w.store r req h.represents fit busy now m.location full small at offset size),
)
  where
    looked : System
    looked = record {
      store = w.store;
      index = w.index;
      phase = idle;
      reader = look_up w.index camera id;
    }

    stored : System
    stored = record {
      store = (append ch busy now req w.store).1;
      index =
          if is_full w.store.pool req then evict_pool w.index (next_pool w.store.pool) else w.index;
      phase = inserting req (append ch busy now req w.store).0;
      reader = overtake w.store.pool req looked.reader;
    }

    finished : System
    finished = record stored {
      reader = answered camera true (read_reply (read_segment_data m.location stored.store).0);
    }

    is_located : overtake w.store.pool req (look_up w.index camera id) ≡ located camera id m true
    is_located =
        let same : (m.location.pool_idx == next_pool w.store.pool) ≡ true = ground arith in
        rw (look_up, found, full, same) refl
