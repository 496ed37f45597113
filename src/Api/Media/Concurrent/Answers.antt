-- ===== src/Api/Media/Concurrent/Answers.antt =====
-- What a handler answers while the writer runs.
use oasis_nvr.Prelude.{ℕ, ◌≡◌, ◌⊎◌, ap, true, length, inl, inr}
use oasis_nvr.Utf8.{Text}
use oasis_nvr.Chrono.{Chrono}
use oasis_nvr.Outcome.{ok}
use oasis_nvr.Storage.ChunkPool.Pool.{read_segment_data}
use oasis_nvr.Storage.ChunkPool.Ring.{Ring}
use oasis_nvr.Storage.GlobalWriter.{WriterState}
use oasis_nvr.Storage.GlobalWriter.Serves.{Serves, Locates, find_segment-Locates, read-IsIn}
use oasis_nvr.Api.{mp4, answer}
use oasis_nvr.Api.Media.{read_reply}
use oasis_nvr.Api.Media.Concurrent.{
  idle, Reader, asking, located, System, look_up, Step, receive, store_segment, file_segment, look,
  read, ask, Reach, here, next, step_ring, ring_after,
}
use oasis_nvr.Api.Media.Concurrent.Safe.{ReaderOk, Inv, receive-Inv}
use oasis_nvr.Api.Media.Concurrent.Runs.{store_segment-Inv, filed-Inv}

-- The invariant for another position of the handler.
with_reader :
    (ch : Chrono) (r : Ring) (s : System) (reader : Reader)
    → Inv ch r s
    → ReaderOk r (length s.store.pool.slots) reader
    → Inv ch r (record s { reader = reader })
with_reader ch r s reader v h = record {
  represents = v.represents;
  described = v.described;
  valid = v.valid;
  phase_ok = v.phase_ok;
  reader_ok = h;
}

look_up-ReaderOk :
    (ch : Chrono) (r : Ring) (s : System) (camera : Text) (id : ℕ)
    → Inv ch r s
    → ReaderOk r (length s.store.pool.slots) (look_up s.index camera id)
look_up-ReaderOk ch r s camera id v =
    elim (find_segment-Locates r (length s.store.pool.slots) s.index camera id v.described) [
      | inl e ↦ rw (look_up, e) tt
      | inr (m, found, l) ↦ rw (look_up, found) (inr l)
    ]

Step-Inv :
    (ch : Chrono) (r : Ring) (s t : System) (st : Step ch s t)
    → Inv ch r s
    → Inv ch (step_ring st r) t
Step-Inv ch r s t (receive req ix i fit e q) v = rw q (receive-Inv ch r s req ix v fit e)
Step-Inv ch r s t (store_segment req busy now p q) v =
    rw q (store_segment-Inv ch r s req busy now v p)
Step-Inv ch r s t (file_segment req outcome w p few e q) v =
    rw q (filed-Inv ch r s req outcome w v (rw p at v.phase_ok) few e)
Step-Inv ch r s t (look camera id p q) v =
    rw q (with_reader ch r s _ v (look_up-ReaderOk ch r s camera id v))
Step-Inv ch r s t (read camera id seg overtaken p q) v = rw q (with_reader ch r s _ v tt)
Step-Inv ch r s t (ask camera id old overtaken reply p q) v = rw q (with_reader ch r s _ v tt)

Reach-Inv :
    (ch : Chrono) (r : Ring) (s t : System) (reached : Reach ch s t)
    → Inv ch r s
    → Inv ch (ring_after reached r) t
Reach-Inv ch r s t here v = v
Reach-Inv ch r s u (next {t} reached st) v =
    Step-Inv ch (ring_after reached r) t u st (Reach-Inv ch r s t reached v)

-- A read of the handler in a state with this ring: the handler was overtaken, or what it looked up
-- is a segment of the camera that the ring has there now, and the answer is 200 with its bytes.
abbrev pub ReadRight : {ch : Chrono} {s t : System} → Step ch s t → Ring → Type 0
ReadRight (receive req ix p fit e q) r = Unit
ReadRight (store_segment req busy now p q) r = Unit
ReadRight (file_segment req outcome w p few e q) r = Unit
ReadRight (look camera id p q) r = Unit
ReadRight {ch} {s} (read camera id seg overtaken p q) r =
    (overtaken ≡ true)
    ⊎ ((l : Locates r (length s.store.pool.slots) camera id seg) × (read_reply
            (read_segment_data seg.location s.store).0
          ≡ ok (answer mp4 l.segment.bytes)))
ReadRight (ask camera id old overtaken reply p q) r = Unit

-- All reads of a run, each with the ring of its moment.
abbrev pub AnswersRight : {ch : Chrono} {s t : System} → Reach ch s t → Ring → Type 0
AnswersRight here r = Unit
AnswersRight (next reached st) r = AnswersRight reached r × ReadRight st (ring_after reached r)

Step-ReadRight :
    (ch : Chrono) (r : Ring) (s t : System) (st : Step ch s t) → Inv ch r s → ReadRight st r
Step-ReadRight ch r s t (receive req ix p fit e q) v = tt
Step-ReadRight ch r s t (store_segment req busy now p q) v = tt
Step-ReadRight ch r s t (file_segment req outcome w p few e q) v = tt
Step-ReadRight ch r s t (look camera id p q) v = tt
Step-ReadRight ch r s t (ask camera id old overtaken reply p q) v = tt
Step-ReadRight ch r s t (read camera id m overtaken p q) v = right (rw p at v.reader_ok)
  where
    right :
        ReaderOk r (length s.store.pool.slots) (located camera id m overtaken)
        → (overtaken ≡ true)
          ⊎ ((l : Locates r (length s.store.pool.slots) camera id m) × (read_reply
                  (read_segment_data m.location s.store).0
                ≡ ok (answer mp4 l.segment.bytes)))
    right (inl t) = inl t
    right (inr l) = inr (
      l,
      ap (λ o. read_reply o.0)
          (read-IsIn ch s.store r m.location l.segment v.represents l.in_range l.points),
    )

Inv-AnswersRight :
    (ch : Chrono) (r : Ring) (s t : System) (reached : Reach ch s t)
    → Inv ch r s
    → AnswersRight reached r
Inv-AnswersRight ch r s t here v = tt
Inv-AnswersRight ch r s u (next {t} reached st) v = (
  Inv-AnswersRight ch r s t reached v,
  Step-ReadRight ch (ring_after reached r) t u st (Reach-Inv ch r s t reached v),
)

-- The writer and a handler may take their steps in any order. If the writer's invariant holds at
-- first for a ring, then after any run, also between the eviction, the append and the insertion of
-- one request, it holds for the ring that has taken what was appended in the run. And each read of
-- the handler in the run was right: what it had looked up under the camera and the id was at the
-- moment of the read a segment of that camera which the ring had at the listed location, and the
-- answer 200 with that segment's bytes; unless the writer, between the lookup and the read, came to
-- append where the current pool had no room and the segment's pool was the next one. The segments
-- must be such as can be encoded, and the ids not reach 2^64.
pub Reach-AnswersRight :
    (ch : Chrono) (w : WriterState) (r : Ring) (camera : Text) (id : ℕ) (t : System)
    (reached : Reach ch
      (record { store = w.store; index = w.index; phase = idle; reader = asking camera id })
      t)
    → Serves ch w r
    → Serves ch (record { store = t.store; index = t.index }) (ring_after reached r)
      × AnswersRight reached r
Reach-AnswersRight ch w r camera id t reached h =
    let begin : Inv ch r
        (record { store = w.store; index = w.index; phase = idle; reader = asking camera id }) =
      record {
        represents = h.represents;
        described = h.described;
        valid = h.valid;
        phase_ok = tt;
        reader_ok = tt;
      } in
    let v = Reach-Inv ch r _ t reached begin in
    (
      record { represents = v.represents; described = v.described; valid = v.valid },
      Inv-AnswersRight ch r _ t reached begin,
    )
