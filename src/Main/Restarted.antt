-- ===== src/Main/Restarted.antt =====
-- The recorder started again on the pool files that it left: `RecordingManager::new` of
-- src/manager.rs, the writer of src/storage/global_writer.rs and the API together.
use oasis_nvr.Prelude.{
  ℕ, zero, suc, ◌+◌, ◌^◌, ◌≤◌, ◌<◌, ◌≡◌, refl, sym, ap, ◌∙◌, Bool, true, false, not, ◌&&◌, List,
  ◌∷◌, ◌++◌, arith, All, length, length-replicate, replicate,
}
use oasis_nvr.Chrono.{Time, Chrono}
use oasis_nvr.Outcome.{ok}
use oasis_nvr.Config.{Config, pool_bytes}
use oasis_nvr.Storage.ChunkPool.Types.{PoolSlot}
use oasis_nvr.Storage.ChunkPool.Record.{Segment, record_size}
use oasis_nvr.Storage.ChunkPool.Record.RoundTrip.{IsStorable}
use oasis_nvr.Storage.ChunkPool.Files.{Disk, Store}
use oasis_nvr.Storage.ChunkPool.Readers
use oasis_nvr.Storage.ChunkPool.Ring.Retains.{advances, Behind}
use oasis_nvr.Storage.ChunkPool.Open.{open_pool, scan_all_pools}
use oasis_nvr.Storage.ChunkPool.Open.Restart.{AllClean, open_pool-restores}
use oasis_nvr.Storage.Index.{SegmentIndex}
use oasis_nvr.Storage.GlobalWriter.{
  spawn_writer, start_index, WriterState, WriteRequest, writer_loop,
}
use oasis_nvr.Storage.GlobalWriter.Retention.{loop-Keeps}
use oasis_nvr.Storage.GlobalWriter.Restart.{stored_count}
use oasis_nvr.Storage.GlobalWriter.Restart.Serving.{
  AllCutWell, kept_view, kept_ring, restarted, rebuilt, start_index-rebuilt, start_index-Serves,
}
use oasis_nvr.Storage.GlobalWriter.Restart.Listed.{rebuilt-ListsAt}
use oasis_nvr.Manager.{start_workers}
use oasis_nvr.Api.{mp4, answer}
use oasis_nvr.Api.Media.{handle_hls_segment}
use oasis_nvr.Api.Media.Serving.{serving, serve-found}
use oasis_nvr.Main.Start.{Directories, Started, no_workers, new_manager, api_state}

-- The pool that was left, with the slot it was writing to.
abbrev pub left_pool : ℕ → List PoolSlot → ℕ → Disk → Store
left_pool size slots j disk = record {
  pool = record { pool_capacity = size; slots = slots; write_idx = j };
  disk = disk;
}

-- What the manager shares once it runs on it.
abbrev pub started_on : Config → Store → SegmentIndex → Started
started_on cfg s ix = record {
  manager = start_workers no_workers cfg.cameras;
  store = s;
  read_counters = Readers.new cfg.storage.max_pools;
  index = ix;
}

-- No new counter is full.
zeros-not_full : (n : ℕ) → All (λ c. c + 1 < 2 ^ 64) (replicate n 0)
zeros-not_full zero = tt
zeros-not_full (suc n) = (omega arith, zeros-not_full n)

no_failure : (b : Bool) → (b && not true) ≡ false
no_failure true = refl
no_failure false = refl

module _ (ch : Chrono) (clock : ℕ → Time) (now : Time) (disk : Disk) (dirs : Directories)
    (cfg : Config) (ids : ℕ → ℕ) (slot : PoolSlot) (slots : List PoolSlot) (j : ℕ)
    (made_base : dirs.make_base ≡ true) (cleared : dirs.clear_tmp ≡ true)
    (made_tmp : dirs.make_tmp ≡ true) (accepted : dirs.channel cfg.storage.writer_queue_size ≡ true)
    (count : cfg.storage.max_pools ≡ length (slot ∷ slots))
    (bounded : 64 + pool_bytes cfg.storage < 2 ^ 63)
    (clean : AllClean ch clock (pool_bytes cfg.storage) disk ids 0 (slot ∷ slots))
    (lt : j < length (slot ∷ slots)) (before : (k : ℕ) → k < j → ids k ≤ ids j)
    (behind : (k : ℕ) → j < k → k < length (slot ∷ slots) → ids k < ids j) where
  abbrev left : Store
  left = left_pool (pool_bytes cfg.storage) (slot ∷ slots) j disk

  new_manager-started :
      new_manager ch clock now disk dirs cfg
      ≡ ok (started_on cfg left (rebuilt ch clock left ids bounded clean))
  unfolding new_manager spawn_writer
  new_manager-started =
      rw
        (
          made_base,
          cleared,
          made_tmp,
          no_failure dirs.tmp_exists,
          ap (open_pool ch clock (pool_bytes cfg.storage) now disk) count,
          open_pool-restores ch clock (pool_bytes cfg.storage) now disk ids slot slots j
              (omega arith) clean lt before behind,
          spawn_writer,
          accepted,
          start_index-rebuilt ch clock left ids bounded clean,
        )
        refl

  -- There is one index to start with.
  same_index :
      (ix : SegmentIndex)
      → start_index (scan_all_pools ch clock left) ≡ ok ix
      → ix ≡ rebuilt ch clock left ids bounded clean
  same_index ix run =
      let built = sym run ∙ start_index-rebuilt ch clock left ids bounded clean in cc

  -- What was recorded before a restart is served after it: where the pool files are as the recorder
  -- left them, with no record of an earlier lap behind their records, and the pool that was written
  -- has the last of the greatest ids, the recorder starts on them, and each stored segment is
  -- answered 200 with its bytes when the segment of some id is asked for under its camera's id as the
  -- record keeps it. So it stays while the writer takes further requests, none of them larger than
  -- a pool, until these have taken the next of the pools so often that the ring comes round to
  -- the segment's. The directories must be made and the
  -- bound of the writer's channel be accepted, no id of a camera have been cut inside a character,
  -- the requests be such as can be encoded, and the ids of segments not reach 2^64.
  pub new_manager-handle_hls_segment :
      (cut : AllCutWell ch clock left ids 0 (slot ∷ slots) clean) (i : ℕ)
      (earlier later : List Segment) (seg : Segment) (busy : ℕ → ℕ → Bool) (at : ℕ → Time) (k : ℕ)
      (reqs : List WriteRequest) (d : ℕ)
      → i < length (slot ∷ slots)
      → (kept_view ch clock left ids 0 (slot ∷ slots) clean i).segments ≡ earlier ++ (seg ∷ later)
      → All (IsStorable ch) reqs
      → All (λ q. record_size q ≤ pool_bytes cfg.storage) reqs
      → stored_count ch clock left ids 0 (slot ∷ slots) clean + length reqs < 2 ^ 64
      → Behind (length (slot ∷ slots)) i j d
      → d
          + advances
              (length (slot ∷ slots))
              (pool_bytes cfg.storage)
              (kept_ring ch clock left ids clean)
              reqs
        < length (slot ∷ slots)
      → (started : Started) × (new_manager ch clock now disk dirs cfg ≡ ok started)
        × (v : WriterState) × (writer_loop ch busy at k (restarted started.store started.index) reqs
            ≡ ok v)
        × (id : ℕ) × (handle_hls_segment (serving (api_state cfg started) v) seg.camera_id id
            ≡ ok (answer mp4 seg.bytes, started.read_counters))
  unfolding Readers.new
  new_manager-handle_hls_segment cut i earlier later seg busy at k reqs d in_range here fits small
        few place rounds =
      let ix = rebuilt ch clock left ids bounded clean in
      let (ix', run, serves, given) =
        start_index-Serves ch clock left ids clean bounded cut lt (omega arith) in
      let same = same_index ix' run in
      let l =
        rebuilt-ListsAt ch clock left ids bounded clean i earlier later seg (omega arith) in_range
          here in
      let m = l.entry in
      let (v, e, listed, reads, kept) =
        loop-Keeps ch busy at k (restarted left ix) (kept_ring ch clock left ids clean) reqs
          seg.camera_id m seg (length (slot ∷ slots)) (pool_bytes cfg.storage) d refl refl
          (rw same at serves) fits small
          (omega (arith, given, ap SegmentIndex.segment_counter same)) l.lists l.points
          (rw l.in_pool in_range) (rw l.in_pool place) rounds in
      (
        started_on cfg left ix,
        new_manager-started,
        v,
        e,
        m.segment_id,
        serve-found (serving (api_state cfg (started_on cfg left ix)) v) v seg.camera_id
            m.segment_id m seg.bytes
            (record {
              same_index = refl;
              same_store = refl;
              counted = length-replicate cfg.storage.max_pools 0 ∙ count ∙ sym kept;
              not_full = zeros-not_full cfg.storage.max_pools;
            })
            listed.found (omega (arith, l.in_pool, kept)) reads,
      )
