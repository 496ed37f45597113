-- ===== src/Api/Media/Concurrent/Safe.antt =====
-- What holds at every moment while the writer and a handler run.
use oasis_nvr.Prelude.{
  ℕ, ◌<◌, ◌≡◌, ◌≢◌, ◌⊎◌, refl, sym, ◌∙◌, Bool, true, false, List, [], ◌∷◌, arith, ◌==◌, All,
  All-keep, length, if◌then◌else◌, inl, inr, Bool-cases,
}
use oasis_nvr.Chrono.{Chrono}
use oasis_nvr.Outcome.{Result, ok, err, panic}
use oasis_nvr.Storage.ChunkPool.Record.RoundTrip.{IsStorable}
use oasis_nvr.Storage.ChunkPool.Files.{Store}
use oasis_nvr.Storage.ChunkPool.Ring.{Ring, IsAt, Represents}
use oasis_nvr.Storage.Index.{Entry, SegmentIndex, evict_pool}
use oasis_nvr.Storage.Index.Laws.{IsValid, evict_pool-IsValid}
use oasis_nvr.Storage.GlobalWriter.{WriteRequest, evict_next}
use oasis_nvr.Storage.GlobalWriter.Serves.{Describes, Locates}
use oasis_nvr.Api.Media.Concurrent.{
  Phase, idle, appending, inserting, Reader, asking, located, answered, System, is_full, next_pool,
  evict,
}
use oasis_nvr.Api.Media.Concurrent.Moves.{after_append, status_is, append-Describes}

-- Before `append`, the entries of a pool that it is going to take are gone; before the insertion,
-- the ring has the new segment where the index will say.
abbrev pub PhaseOk : Chrono → Store → Ring → List Entry → Phase → Type 0
PhaseOk ch s r es idle = Unit
PhaseOk ch s r es (appending req) =
    IsStorable ch req
    × ((is_full s.pool req ≡ false) ⊎ All (λ e. e.1.location.pool_idx ≢ next_pool s.pool) es)
PhaseOk ch s r es (inserting req (ok loc)) = IsAt r loc req × (loc.pool_idx < length s.pool.slots)
PhaseOk ch s r es (inserting req (err e)) = Unit
PhaseOk ch s r es (inserting req panic) = ⊥

-- Until it is overtaken, what was looked up is what the ring has there.
abbrev pub ReaderOk : Ring → ℕ → Reader → Type 0
ReaderOk r n (asking camera id) = Unit
ReaderOk r n (located camera id m overtaken) = (overtaken ≡ true) ⊎ Locates r n camera id m
ReaderOk r n (answered camera overtaken reply) = Unit

pub record Inv (ch : Chrono) (r : Ring) (s : System) : Type 0 where
  pub represents : Represents ch s.store r
  pub described : All (Describes r (length s.store.pool.slots)) s.index.entries
  pub valid : IsValid s.index
  pub phase_ok : PhaseOk ch s.store r s.index.entries s.phase
  pub reader_ok : ReaderOk r (length s.store.pool.slots) s.reader

-- The eviction always succeeds, and clears the next pool if that is needed.
pub evict-is :
    (ch : Chrono) (s : System) (r : Ring) (req : WriteRequest)
    → Represents ch s.store r
    → IsStorable ch req
    → evict s req
      ≡ ok (
          if is_full s.store.pool req then evict_pool s.index (next_pool s.store.pool) else s.index)
unfolding evict_next
evict-is ch s r req rep fit =
    let some_pools : (length s.store.pool.slots == 0) ≡ false =
      (let in_range = rep.in_range in ground arith) in
    let st = status_is ch s.store r req rep fit in rw (st, some_pools) (if_ok _ _ _)
  where
    if_ok :
        (b : Bool) (x y : SegmentIndex)
        → Path (Result SegmentIndex) (if b then ok x else ok y) (ok (if b then x else y))
    if_ok true x y = refl
    if_ok false x y = refl

-- The entries that the eviction leaves.
record Cleared (ch : Chrono) (s : System) (r : Ring) (req : WriteRequest) (ix : SegmentIndex)
    : Type 0 where
  described : All (Describes r (length s.store.pool.slots)) ix.entries
  valid : IsValid ix
  cleared :
      (is_full s.store.pool req ≡ false)
      ⊎ All (λ e. e.1.location.pool_idx ≢ next_pool s.store.pool) ix.entries

evict-Cleared :
    (ch : Chrono) (s : System) (r : Ring) (req : WriteRequest)
    → All (Describes r (length s.store.pool.slots)) s.index.entries
    → IsValid s.index
    → Cleared ch s r req
        (if is_full s.store.pool req then evict_pool s.index (next_pool s.store.pool) else s.index)
unfolding evict_pool
evict-Cleared ch s r req d v = elim (Bool-cases (is_full s.store.pool req)) [
  | inl t ↦
      let (valid, gone) = evict_pool-IsValid s.index (next_pool s.store.pool) v in
      rw t (record {
        described = All-keep (Describes r (length s.store.pool.slots)) _ s.index.entries d;
        valid = valid;
        cleared = inr gone;
      })
  | inr f ↦ rw f (record { described = d; valid = v; cleared = inl f })
]

pub receive-Inv :
    (ch : Chrono) (r : Ring) (s : System) (req : WriteRequest) (ix : SegmentIndex)
    → Inv ch r s
    → IsStorable ch req
    → evict s req ≡ ok ix
    → Inv ch r (record s { index = ix; phase = appending req })
receive-Inv ch r s req ix v fit e =
    let same : Path (Result SegmentIndex) (ok _) (ok ix) =
      sym (evict-is ch s r req v.represents fit) ∙ e in
    let q : (if is_full s.store.pool req
          then evict_pool s.index (next_pool s.store.pool)
          else s.index)
        ≡ ix =
      cc in
    let c = evict-Cleared ch s r req v.described v.valid in
    record {
      represents = v.represents;
      described = rw (← q) c.described;
      valid = rw (← q) c.valid;
      phase_ok = (fit, rw (← q) c.cleared);
      reader_ok = v.reader_ok;
    }

-- The entries still describe segments when the request is appended.
pub cleared-Describes :
    (ch : Chrono) (s : Store) (r : Ring) (req : WriteRequest) (rep : Represents ch s r)
    (fit : IsStorable ch req) (es : List Entry)
    → All (Describes r (length s.pool.slots)) es
    → (is_full s.pool req ≡ false) ⊎ All (λ e. e.1.location.pool_idx ≢ next_pool s.pool) es
    → All (Describes (after_append ch s r req rep fit) (length s.pool.slots)) es
cleared-Describes ch s r req rep fit [] d c = tt
cleared-Describes ch s r req rep fit (e ∷ es) d c = (
  elim (append-Describes ch s r req rep fit e d.0) [
    | inr moved ↦ moved
    | inl (full, at) ↦ absurd (kept full at c)
  ],
  cleared-Describes ch s r req rep fit es d.1 (rest c),
)
  where
    kept :
        is_full s.pool req ≡ true
        → e.1.location.pool_idx ≡ next_pool s.pool
        → (is_full s.pool req ≡ false)
          ⊎ All (λ e. e.1.location.pool_idx ≢ next_pool s.pool) (e ∷ es)
        → ⊥
    kept full at (inl f) = let q : true ≡ false = sym full ∙ f in ground arith
    kept full at (inr other) = other.0 at

    rest :
        (is_full s.pool req ≡ false) ⊎ All (λ e. e.1.location.pool_idx ≢ next_pool s.pool) (e ∷ es)
        → (is_full s.pool req ≡ false) ⊎ All (λ e. e.1.location.pool_idx ≢ next_pool s.pool) es
    rest (inl f) = inl f
    rest (inr other) = inr other.1
