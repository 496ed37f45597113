-- ===== src/Api/Media/Concurrent.antt =====
-- `writer_loop` of src/storage/global_writer.rs and a request of `handle_hls_segment` of src/api.rs
-- at the same time. Each step is what one of them does while it holds a lock, on the index or on the
-- pool: the writer evicts, appends and inserts, and the handler looks the segment up and then, with
-- the pool locked, takes its guard and reads. Between two steps anything of the other may happen.
-- Handlers change nothing that others see but the counters, so one of them stands for all.
pub mod Moves
pub mod Safe
pub mod Runs
pub mod Answers
pub mod Overtaken
use oasis_nvr.Prelude.{
  ℕ, ◌+◌, ◌%◌, ◌^◌, ◌<◌, ◌≡◌, Bool, true, false, ◌&&◌, ◌||◌, Option, none, some, List, ltb, ◌==◌,
  add64, length,
}
use oasis_nvr.Utf8.{Text}
use oasis_nvr.Chrono.{Time, Chrono}
use oasis_nvr.Outcome.{Result, ok, err, panic, ◌>>=◌}
use oasis_nvr.Storage.ChunkPool.Types.{SegmentLocation, ChunkPool}
use oasis_nvr.Storage.ChunkPool.Record.{record_size}
use oasis_nvr.Storage.ChunkPool.Record.RoundTrip.{IsStorable}
use oasis_nvr.Storage.ChunkPool.Files.{Store}
use oasis_nvr.Storage.ChunkPool.Ring.{Ring, ring_append}
use oasis_nvr.Storage.ChunkPool.Pool.{append, status, pool_count, read_segment_data}
use oasis_nvr.Storage.Index.{SegmentIndex, SegmentMeta, segments_for_camera, find_segment}
use oasis_nvr.Storage.GlobalWriter.{WriteRequest, WriterState, evict_next, record_append}
use oasis_nvr.Api.{Reply, not_found_404, plain_text, segment_not_found, refuse}
use oasis_nvr.Api.Media.{read_reply}

-- Where the writer is: waiting for a request, before `append`, or before the insertion of what
-- `append` answered.
pub data Phase : Type 0 where
  idle : Phase
  appending : WriteRequest → Phase
  inserting : WriteRequest → Result SegmentLocation → Phase

-- Where the handler is. `overtaken` says whether, since the segment was looked up, the writer came
-- to append where the current pool had no room and the segment's pool is the next one.
pub data Reader : Type 0 where
  asking : Text → ℕ → Reader
  located : (camera : Text) (id : ℕ) (seg : SegmentMeta) (overtaken : Bool) → Reader
  answered : (camera : Text) (overtaken : Bool) → Result (Reply (List ℕ)) → Reader

pub record System : Type 0 where
  pub store : Store
  pub index : SegmentIndex
  pub phase : Phase
  pub reader : Reader

-- `used + record_size > cap`
abbrev pub full_for : WriteRequest → Result (ℕ × ℕ × ℕ) → Bool
full_for req (ok (idx, used, cap)) = ltb cap (add64 used (record_size req))
full_for req (err e) = false
full_for req panic = false

abbrev pub is_full : ChunkPool → WriteRequest → Bool
is_full p req = full_for req (status p)

abbrev pub next_pool : ChunkPool → ℕ
next_pool p = (p.write_idx + 1) % pool_count p

-- The eviction of the writer, before it locks the pool.
abbrev pub evict : System → WriteRequest → Result SegmentIndex
evict s req =
    status s.store.pool >>= λ st. evict_next (record { store = s.store; index = s.index }) st req

abbrev pub overtake : ChunkPool → WriteRequest → Reader → Reader
overtake p req (asking camera id) = asking camera id
overtake p req (located camera id seg overtaken) =
    located camera id seg (overtaken || (is_full p req && (seg.location.pool_idx == next_pool p)))
overtake p req (answered camera overtaken reply) = answered camera overtaken reply

abbrev pub look_up : SegmentIndex → Text → ℕ → Reader
look_up ix camera id = elim (find_segment id (segments_for_camera ix camera)) [
  | none ↦ answered camera false (ok (refuse not_found_404 plain_text segment_not_found))
  | some seg ↦ located camera id seg false
]

pub data Step (ch : Chrono) (s t : System) : Type 0 where
  receive :
      (req : WriteRequest) (ix : SegmentIndex)
      → s.phase ≡ idle
      → IsStorable ch req
      → evict s req ≡ ok ix
      → t ≡ record s { index = ix; phase = appending req }
      → Step ch s t
  store_segment :
      (req : WriteRequest) (busy : ℕ → Bool) (now : Time)
      → s.phase ≡ appending req
      → t ≡ record {
        store = (append ch busy now req s.store).1;
        index = s.index;
        phase = inserting req (append ch busy now req s.store).0;
        reader = overtake s.store.pool req s.reader;
      }
      → Step ch s t
  file_segment :
      (req : WriteRequest) (outcome : Result SegmentLocation) (w : WriterState)
      → s.phase ≡ inserting req outcome
      → s.index.segment_counter + 1 < 2 ^ 64
      → record_append req s.index (outcome, s.store) ≡ ok w
      → t ≡ record s { store = w.store; index = w.index; phase = idle }
      → Step ch s t
  look :
      (camera : Text) (id : ℕ)
      → s.reader ≡ asking camera id
      → t ≡ record s { reader = look_up s.index camera id }
      → Step ch s t
  read :
      (camera : Text) (id : ℕ) (seg : SegmentMeta) (overtaken : Bool)
      → s.reader ≡ located camera id seg overtaken
      → t ≡ record s {
        reader = answered camera overtaken (read_reply (read_segment_data seg.location s.store).0);
      }
      → Step ch s t
  ask :
      (camera : Text) (id : ℕ) (old : Text) (overtaken : Bool) (reply : Result (Reply (List ℕ)))
      → s.reader ≡ answered old overtaken reply
      → t ≡ record s { reader = asking camera id }
      → Step ch s t

pub data Reach (ch : Chrono) (s : System) : System → Type 0 where
  here : Reach ch s s
  next : {t u : System} → Reach ch s t → Step ch t u → Reach ch s u

-- The abstract ring behind a step, and behind all of a run: it takes what the writer appends.
abbrev pub step_ring : {ch : Chrono} {s t : System} → Step ch s t → Ring → Ring
step_ring (receive req ix p fit e q) r = r
step_ring {ch} {s} (store_segment req busy now p q) r =
    ring_append (length s.store.pool.slots) s.store.pool.pool_capacity r req
step_ring (file_segment req outcome w p few e q) r = r
step_ring (look camera id p q) r = r
step_ring (read camera id seg overtaken p q) r = r
step_ring (ask camera id old overtaken reply p q) r = r

abbrev pub ring_after : {ch : Chrono} {s t : System} → Reach ch s t → Ring → Ring
ring_after here r = r
ring_after (next reached step) r = step_ring step (ring_after reached r)
