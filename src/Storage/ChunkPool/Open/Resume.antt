-- ===== src/Storage/ChunkPool/Open/Resume.antt =====
-- Which pool `open` resumes from.
use oasis_nvr.Prelude.{
  ℕ, zero, suc, ◌+◌, ◌≤◌, ◌<◌, ◌≡◌, refl, ap, ◌∙◌, true, false, some, List, [], ◌∷◌, ◌++◌, arith,
  leb, if◌then◌else◌, inl, inr, Bool-cases,
}
use oasis_nvr.Chrono.{Time, Chrono}
use oasis_nvr.Outcome.{ok}
use oasis_nvr.Storage.ChunkPool.Types.{ScannedRecord}
use oasis_nvr.Storage.ChunkPool.Record.{scan_records}
use oasis_nvr.Storage.ChunkPool.Files.{Disk, Store}
use oasis_nvr.Storage.ChunkPool.Open.{
  read_pool_header, sum_sizes, OpenState, open_slot, open_loop, open_pool,
}

-- The index and the id of the best pool once the ids of `left` pools from `i` on were compared.
abbrev pub best : (ℕ → ℕ) → ℕ → ℕ → ℕ × ℕ → ℕ × ℕ
best ids zero i b = b
best ids (suc left) i b =
    best ids left (suc i)
      (if leb b.1 (ids i) then i else b.0, if leb b.1 (ids i) then ids i else b.1)

-- Smaller ids change nothing.
best-smaller :
    (ids : ℕ → ℕ) (left i : ℕ) (b : ℕ × ℕ)
    → ((k : ℕ) → i ≤ k → k < i + left → ids k < b.1)
    → best ids left i b ≡ b
best-smaller ids zero i b h = refl
best-smaller ids (suc left) i b h =
    let lt = h i (omega arith) (omega arith) in
    let worse : leb b.1 (ids i) ≡ false = ground arith in
    rw (best, worse) (best-smaller ids left (suc i) b (λ k le l. h k (omega arith) (omega arith)))

-- An id that is not less than those before it and greater than those behind it is the best.
pub best-greatest :
    (ids : ℕ → ℕ) (left i j : ℕ) (b : ℕ × ℕ)
    → i ≤ j
    → j < i + left
    → b.1 ≤ ids j
    → ((k : ℕ) → k < j → ids k ≤ ids j)
    → ((k : ℕ) → j < k → k < i + left → ids k < ids j)
    → (best ids left i b).0 ≡ j
best-greatest ids zero i j b le lt bound before behind = absurd (omega arith)
best-greatest ids (suc left) i j b le lt bound before behind = elim (Bool-cases (leb j i)) [
  | inl here ↦
      let e : i ≡ j = ground arith in
      let better : leb b.1 (ids i) ≡ true = rw e (ground arith) in
      rw (best, better)
        (ap (λ (x : ℕ × ℕ). x.0)
            (best-smaller ids left (suc i) (i, ids i)
              (λ k l m. rw e (behind k (omega arith) (omega arith))))
          ∙ e)
  | inr there ↦
      let lt' : i < j = ground arith in
      elim (Bool-cases (leb b.1 (ids i))) [
        | inl t ↦
            rw (best, t)
              (best-greatest ids left (suc i) j (i, ids i) (omega arith) (omega arith)
                (before i lt') before (λ k l m. behind k l (omega arith)))
        | inr f ↦
            rw (best, f)
              (best-greatest ids left (suc i) j b (omega arith) (omega arith) bound before
                (λ k l m. behind k l (omega arith)))
      ]
]

module _ (ch : Chrono) (clock : ℕ → Time) (size : ℕ) where
  -- What `open` finds of one file whose header is read as this id.
  pub record Found (disk : Disk) (i id : ℕ) : Type 0 where
    pub file : List ℕ
    pub records : List ScannedRecord
    pub created : ℕ
    pub there : disk i ≡ some file
    pub header : read_pool_header file ≡ ok (id, created)
    pub scanned : scan_records ch clock i id size file ≡ ok records

  -- So it is with each of the `left` files from `i` on.
  abbrev pub AllFound : Disk → (ℕ → ℕ) → ℕ → ℕ → Type 0
  AllFound disk ids i zero = Unit {0}
  AllFound disk ids i (suc left) = Found disk i (ids i) × AllFound disk ids (suc i) left

  abbrev pub found_slot : (s : OpenState) (i id : ℕ) → Found s.disk i id → OpenState
  found_slot s i id f = record s {
    slots = s.slots ++ (record { pool_id = id; bytes_used = sum_sizes f.records } ∷ []);
    best_idx = if leb s.best_pool_id id then i else s.best_idx;
    best_pool_id = if leb s.best_pool_id id then id else s.best_pool_id;
    any_existing = true;
  }

  pub open_slot-found :
      (i id : ℕ) (s : OpenState) (f : Found s.disk i id)
      → open_slot ch clock size i s ≡ ok (found_slot s i id f)
  unfolding open_slot
  open_slot-found i id s f = rw (open_slot, f.there, f.header, f.scanned) refl

  abbrev Resumes : Disk → OpenState → ℕ → Type 0
  Resumes disk t j = (t.best_idx ≡ j) × (t.any_existing ≡ true) × (t.disk ≡ disk)

  open_loop-Resumes :
      (ids : ℕ → ℕ) (left i : ℕ) (s : OpenState)
      → AllFound s.disk ids i (suc left)
      → (t : OpenState) × (open_loop ch clock size (suc left) i s ≡ ok t)
        × Resumes s.disk t (best ids (suc left) i (s.best_idx, s.best_pool_id)).0
  unfolding open_loop
  open_loop-Resumes ids zero i s z =
      (found_slot s i (ids i) z.0, rw (open_slot-found i (ids i) s z.0) refl, (refl, refl, refl))
  open_loop-Resumes ids (suc left) i s z =
      let (t, run, r) = open_loop-Resumes ids left (suc i) (found_slot s i (ids i) z.0) z.1 in
      (t, rw (open_slot-found i (ids i) s z.0) run, r)

  abbrev fresh : Disk → OpenState
  fresh disk = record {
    slots = [];
    best_idx = 0;
    best_pool_id = 0;
    any_existing = false;
    disk = disk;
  }

  -- Where all pool files are there, `open` changes no file and resumes writing at the last of the
  -- pools whose headers have the greatest id.
  pub open_pool-greatest :
      (now : Time) (disk : Disk) (left : ℕ) (ids : ℕ → ℕ) (j : ℕ)
      → AllFound disk ids 0 (suc left)
      → j < suc left
      → ((k : ℕ) → k < j → ids k ≤ ids j)
      → ((k : ℕ) → j < k → k < suc left → ids k < ids j)
      → (s : Store) × (open_pool ch clock size now disk (suc left) ≡ ok s)
        × (s.pool.write_idx ≡ j)
        × (s.disk ≡ disk)
  unfolding open_pool
  open_pool-greatest now disk left ids j z lt before behind =
      let (t, run, (idx, any, same)) = open_loop-Resumes ids left 0 (fresh disk) z in
      (
        record {
          pool = record { pool_capacity = size; slots = t.slots; write_idx = t.best_idx };
          disk = t.disk;
        },
        rw (run, any) refl,
        idx
            ∙ best-greatest ids (suc left) 0 j (0, 0) (omega arith) (omega arith) (omega arith)
                before (λ k l m. behind k l (omega arith)),
        same,
      )

  -- Where the ids of the pool headers do not decrease from file to file, `open` resumes writing at
  -- the last pool. So it is where every header is read as id 0, and where each pool of `n` has `n`
  -- added to its number, as rotations leave them when they have come round to pool 0.
  pub open_pool-last :
      (now : Time) (disk : Disk) (left : ℕ) (ids : ℕ → ℕ)
      → AllFound disk ids 0 (suc left)
      → ((k : ℕ) → k < left → ids k ≤ ids left)
      → (s : Store) × (open_pool ch clock size now disk (suc left) ≡ ok s)
        × (s.pool.write_idx ≡ left)
        × (s.disk ≡ disk)
  open_pool-last now disk left ids z h =
      open_pool-greatest now disk left ids left z (omega arith) h (λ k l m. absurd (omega arith))
