-- ===== src/Api/Media/Concurrent/Moves.antt =====
-- What each section of the writer does to the segments that entries and readers point to.
use oasis_nvr.Prelude.{
  ℕ, ◌+◌, ◌%◌, ◌<◌, ◌≡◌, ◌≢◌, ◌⊎◌, refl, Bool, true, false, some, arith, ltb, ltb→lt, ltb-false→le,
  ◌==◌, length, get_elem?, add64, inl, inr, Bool-cases,
}
use oasis_nvr.Chrono.{Time, Chrono}
use oasis_nvr.Utf8.{Text}
use oasis_nvr.Outcome.{NvrError, Result, ok, err}
use oasis_nvr.Storage.ChunkPool.Types.{SegmentLocation}
use oasis_nvr.Storage.ChunkPool.Record.{Segment, record_size}
use oasis_nvr.Storage.ChunkPool.Record.RoundTrip.{IsStorable}
use oasis_nvr.Storage.ChunkPool.Record.Scan.{total_size}
use oasis_nvr.Storage.ChunkPool.Files.{Store}
use oasis_nvr.Storage.ChunkPool.Pool.{append, status}
use oasis_nvr.Storage.ChunkPool.Pool.Append.{append-too_large}
use oasis_nvr.Storage.ChunkPool.Ring.{Ring, IsIn, IsAt, ring_append, Represents}
use oasis_nvr.Storage.ChunkPool.Ring.Changes.{put_view-cases, IsIn-snoc}
use oasis_nvr.Storage.ChunkPool.Ring.Refines.{
  append-Represents, ring_append-stay, ring_append-advance, ring_append-too_large,
}
use oasis_nvr.Storage.Index.{Entry, SegmentMeta}
use oasis_nvr.Storage.GlobalWriter.{WriteRequest}
use oasis_nvr.Storage.GlobalWriter.Serves.{Describes, Locates, Describes-move}
use oasis_nvr.Api.Media.Concurrent.{is_full, next_pool}

module _ (ch : Chrono) (s : Store) (r : Ring) (req : WriteRequest) (rep : Represents ch s r)
    (fit : IsStorable ch req) where
  abbrev used : ℕ
  used = total_size (r.view r.current).segments

  pub slot_at_current :
      get_elem? s.pool.slots s.pool.write_idx
      ≡ some (record { pool_id = (r.view r.current).pool_id; bytes_used = used })
  slot_at_current = rw rep.same_current (rep.holds r.current rep.in_range).slot

  pub status_is : status s.pool ≡ ok (s.pool.write_idx, used, s.pool.pool_capacity)
  unfolding status
  status_is = rw slot_at_current refl

  pub is_full_is : is_full s.pool req ≡ ltb s.pool.pool_capacity (used + record_size req)
  is_full_is =
      let sum : add64 used (record_size req) ≡ used + record_size req =
        omega (arith, fit.length_fits, rep.bounded, rep.within r.current rep.in_range) in
      rw (is_full, status_is, sum) refl

  -- The ring once `append` has taken the request.
  abbrev pub after_append : Ring
  after_append = ring_append (length s.pool.slots) s.pool.pool_capacity r req

  -- What the ring has at a location it still has there after the request, unless the request needs
  -- the next pool and this is the location's.
  append-IsIn :
      (loc : SegmentLocation) (seg : Segment)
      → IsIn (r.view loc.pool_idx) loc seg
      → loc.pool_idx < length s.pool.slots
      → ((is_full s.pool req ≡ true) × (loc.pool_idx ≡ next_pool s.pool))
        ⊎ IsIn (after_append.view loc.pool_idx) loc seg
  append-IsIn loc seg points lt = elim (Bool-cases (ltb s.pool.pool_capacity (record_size req))) [
    | inl large ↦
        inr (rw (ring_append-too_large (length s.pool.slots) _ r req (ltb→lt _ _ large)) points)
    | inr small ↦ elim (Bool-cases (ltb s.pool.pool_capacity (used + record_size req))) [
      | inr room ↦ inr (
          rw (ring_append-stay (length s.pool.slots) _ r req (ltb-false→le _ _ room)) (
            put_view-cases (λ v. IsIn v loc seg) r.view r.current loc.pool_idx _
              (λ i. rw i (IsIn-snoc _ _ _ req points)) (λ i. points)))
      | inl full ↦ elim (Bool-cases (loc.pool_idx == next_pool s.pool)) [
        | inl same ↦ inl (rw is_full_is full, ground arith)
        | inr other ↦ inr (
            rw
              (ring_append-advance (length s.pool.slots) _ r req (ltb-false→le _ _ small)
                (ltb→lt _ _ full))
              (put_view-cases (λ v. IsIn v loc seg) r.view ((r.current + 1) % length s.pool.slots)
                loc.pool_idx _ (λ i. absurd (not_next other i)) (λ i. points)))
      ]
    ]
  ]
    where
      not_next :
          (loc.pool_idx == next_pool s.pool) ≡ false
          → (r.current + 1) % length s.pool.slots ≢ loc.pool_idx
      not_next other i =
          let q : next_pool s.pool ≡ loc.pool_idx = rw rep.same_current i in ground arith

  -- So what an entry describes it still describes, unless its pool is taken.
  pub append-Describes :
      (e : Entry)
      → Describes r (length s.pool.slots) e
      → ((is_full s.pool req ≡ true) × (e.1.location.pool_idx ≡ next_pool s.pool))
        ⊎ Describes after_append (length s.pool.slots) e
  append-Describes e d = elim (append-IsIn e.1.location d.segment d.points d.in_range) [
    | inl taken ↦ inl taken
    | inr there ↦ inr (Describes-move r _ (length s.pool.slots) e d there)
  ]

  pub append-Locates :
      (camera : Text) (id : ℕ) (m : SegmentMeta)
      → Locates r (length s.pool.slots) camera id m
      → ((is_full s.pool req ≡ true) × (m.location.pool_idx ≡ next_pool s.pool))
        ⊎ Locates after_append (length s.pool.slots) camera id m
  append-Locates camera id m l = elim (append-IsIn m.location l.segment l.points l.in_range) [
    | inl taken ↦ inl taken
    | inr there ↦ inr (record {
      of_id = l.of_id;
      segment = l.segment;
      points = there;
      in_range = l.in_range;
      of_camera = l.of_camera;
      same_start = l.same_start;
      same_end = l.same_end;
    })
  ]

  -- What `append` leaves: a store for the new ring, and the location of the segment if it was stored.
  pub record Appended (run : Result SegmentLocation × Store) : Type 0 where
    pub represents : Represents ch run.1 after_append
    pub same_capacity : run.1.pool.pool_capacity ≡ s.pool.pool_capacity
    pub same_count : length run.1.pool.slots ≡ length s.pool.slots
    pub answer :
        ((e : NvrError) × (run.0 ≡ err e))
        ⊎ ((loc : SegmentLocation) × (run.0 ≡ ok loc)
            × IsAt after_append loc req
            × (loc.pool_idx < length s.pool.slots))

  pub append-Appended : (busy : ℕ → Bool) (now : Time) → Appended (append ch busy now req s)
  append-Appended busy now = elim (Bool-cases (ltb s.pool.pool_capacity (record_size req))) [
    | inl large ↦ rw (append-too_large ch busy now req s (ltb→lt _ _ large)) (record {
      represents = rw (ring_append-too_large (length s.pool.slots) _ r req (ltb→lt _ _ large)) rep;
      same_capacity = refl;
      same_count = refl;
      answer = inl (_, refl);
    })
    | inr small ↦
        let st = append-Represents ch busy now s r req rep fit (ltb-false→le _ _ small) in
        rw st.outcome_is (record {
          represents = st.represents;
          same_capacity = st.same_capacity;
          same_count = st.same_count;
          answer = inr (
            st.location,
            refl,
            st.points,
            omega (arith, st.in_pool, st.represents.in_range, st.same_count),
          );
        })
  ]
