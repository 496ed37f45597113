-- ===== src/Api/Media/Concurrent/Runs.antt =====
-- Every step of the writer and of a handler keeps what holds between them, and so do all runs.
use oasis_nvr.Prelude.{
  ℕ, ◌+◌, ◌^◌, ◌<◌, ◌≡◌, refl, Bool, true, false, ◌||◌, arith, ◌==◌, length, inl, inr,
}
use oasis_nvr.Chrono.{Time, Chrono}
use oasis_nvr.Outcome.{Result, ok, err, panic}
use oasis_nvr.Storage.ChunkPool.Types.{SegmentLocation}
use oasis_nvr.Storage.ChunkPool.Record.RoundTrip.{IsStorable}
use oasis_nvr.Storage.ChunkPool.Files.{Store}
use oasis_nvr.Storage.ChunkPool.Pool.{append}
use oasis_nvr.Storage.ChunkPool.Ring.{Ring, ring_append, Represents}
use oasis_nvr.Storage.Index.{SegmentIndex, insert}
use oasis_nvr.Storage.Index.Laws.{insert-IsValid}
use oasis_nvr.Storage.GlobalWriter.{WriteRequest, WriterState, record_append}
use oasis_nvr.Storage.GlobalWriter.Refines.{insert-Describes}
use oasis_nvr.Api.Media.Concurrent.{
  idle, appending, inserting, Reader, asking, located, answered, System, next_pool, overtake,
}
use oasis_nvr.Api.Media.Concurrent.Moves.{after_append, append-Locates, Appended, append-Appended}
use oasis_nvr.Api.Media.Concurrent.Safe.{PhaseOk, ReaderOk, Inv, cleared-Describes}

overtake-ReaderOk :
    (ch : Chrono) (s : Store) (r : Ring) (req : WriteRequest) (rep : Represents ch s r)
    (fit : IsStorable ch req) (reader : Reader)
    → ReaderOk r (length s.pool.slots) reader
    → ReaderOk (after_append ch s r req rep fit) (length s.pool.slots) (overtake s.pool req reader)
overtake-ReaderOk ch s r req rep fit (asking camera id) h = tt
overtake-ReaderOk ch s r req rep fit (answered camera overtaken reply) h = h
overtake-ReaderOk ch s r req rep fit (located camera id m overtaken) (inl t) = inl (rw t refl)
overtake-ReaderOk ch s r req rep fit (located camera id m overtaken) (inr l) =
    elim (append-Locates ch s r req rep fit camera id m l) [
      | inr moved ↦ inr moved
      | inl (full, at) ↦
          let same : (m.location.pool_idx == next_pool s.pool) ≡ true = ground arith in
          inl (rw (full, same) (or-true overtaken))
    ]
  where
    or-true : (b : Bool) → (b || true) ≡ true
    or-true true = refl
    or-true false = refl

Appended-PhaseOk :
    (ch : Chrono) (s : Store) (r : Ring) (req : WriteRequest) (rep : Represents ch s r)
    (fit : IsStorable ch req) (run : Result SegmentLocation × Store) (ix : SegmentIndex)
    → Appended ch s r req rep fit run
    → PhaseOk ch run.1 (after_append ch s r req rep fit) ix.entries (inserting req run.0)
Appended-PhaseOk ch s r req rep fit run ix a = elim a.answer [
  | inl (e, is) ↦ rw is tt
  | inr (loc, is, at, lt) ↦ rw is (at, rw a.same_count lt)
]

pub store_segment-Inv :
    (ch : Chrono) (r : Ring) (s : System) (req : WriteRequest) (busy : ℕ → Bool) (now : Time)
    → Inv ch r s
    → s.phase ≡ appending req
    → Inv ch (ring_append (length s.store.pool.slots) s.store.pool.pool_capacity r req) (record {
      store = (append ch busy now req s.store).1;
      index = s.index;
      phase = inserting req (append ch busy now req s.store).0;
      reader = overtake s.store.pool req s.reader;
    })
store_segment-Inv ch r s req busy now v e =
    let p : PhaseOk ch s.store r s.index.entries (appending req) = rw e at v.phase_ok in
    let a = append-Appended ch s.store r req v.represents p.0 busy now in
    record {
      represents = a.represents;
      described =
          rw a.same_count
            (cleared-Describes ch s.store r req v.represents p.0 s.index.entries v.described p.1);
      valid = v.valid;
      phase_ok = Appended-PhaseOk ch s.store r req v.represents p.0 _ s.index a;
      reader_ok =
          rw a.same_count
            (overtake-ReaderOk ch s.store r req v.represents p.0 s.reader v.reader_ok);
    }

-- The insertion, for each answer of `append`.
pub filed-Inv :
    (ch : Chrono) (r : Ring) (s : System) (req : WriteRequest) (outcome : Result SegmentLocation)
    (w : WriterState) (v : Inv ch r s)
    → PhaseOk ch s.store r s.index.entries (inserting req outcome)
    → s.index.segment_counter + 1 < 2 ^ 64
    → record_append req s.index (outcome, s.store) ≡ ok w
    → Inv ch r (record s { store = w.store; index = w.index; phase = idle })
unfolding record_append insert
filed-Inv ch r s req (ok loc) w v p few e =
    let q : record {
      store = s.store;
      index = (insert s.index req.camera_id req.start_ts req.end_ts loc).0;
    }
        ≡ w =
      cc in
    rw (← q) (record {
      represents = v.represents;
      described =
          insert-Describes r (length s.store.pool.slots) s.index req loc v.described p.0 p.1;
      valid = (insert-IsValid s.index req.camera_id req.start_ts req.end_ts loc few v.valid).0;
      phase_ok = tt;
      reader_ok = v.reader_ok;
    })
filed-Inv ch r s req (err x) w v p few e =
    let q : record { store = s.store; index = s.index } ≡ w = cc in
    rw (← q) (record {
      represents = v.represents;
      described = v.described;
      valid = v.valid;
      phase_ok = tt;
      reader_ok = v.reader_ok;
    })
filed-Inv ch r s req panic w v p few e = absurd p
