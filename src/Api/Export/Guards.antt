-- ===== src/Api/Export/Guards.antt =====
-- The guards of an export are taken and dropped again.
use oasis_nvr.Prelude.{
  ℕ, zero, suc, ◌+◌, ◌^◌, ◌<◌, ◌≡◌, ◌≢◌, refl, sym, ◌∙◌, ap, not, some, none, List, [], ◌∷◌, arith,
  keep, All, All-keep, Ordered, Ordered-keep, get_elem?, set, get_elem?-set_ne, ◌==◌, map,
  Bool-cases, inl, inr,
}
use oasis_nvr.Outcome.{ok, ◌>>=◌}
use oasis_nvr.Storage.ChunkPool.Readers.{PoolReadCounters, PoolReadGuard, acquire, drop_guard}
use oasis_nvr.Storage.ChunkPool.Readers.Laws.{entered, acquire-drop_guard}
use oasis_nvr.Chrono.{Time, Chrono}
use oasis_nvr.Config.{pool_bytes}
use oasis_nvr.Storage.ChunkPool.Files.{Store}
use oasis_nvr.Storage.ChunkPool.Open.{open_pool}
use oasis_nvr.Storage.Index.{SegmentMeta, segments_in_range}
use oasis_nvr.Playback.{Surroundings, export_range}
use oasis_nvr.Api.{AppState, ExportParams, Parse}
use oasis_nvr.Api.Export.{distinct_pools, acquire_all, drop_all, export_reply, handle_export}

set_comm : (xs : List ℕ) (i j v w : ℕ) → i ≢ j → set (set xs i v) j w ≡ set (set xs j w) i v
set_comm [] i j v w ne = refl
set_comm (x ∷ xs) zero zero v w ne = absurd (ne refl)
set_comm (x ∷ xs) zero (suc j) v w ne = refl
set_comm (x ∷ xs) (suc i) zero v w ne = refl
set_comm (x ∷ xs) (suc i) (suc j) v w ne = ap (◌∷◌ x) (set_comm xs i j v w (λ e. ne (ap suc e)))

-- The counters with one more reader of each of these pools, and the guards for them.
abbrev bump : PoolReadCounters → ℕ → PoolReadCounters
bump c i = elim (get_elem? c.counters i) [ none ↦ c | some n ↦ entered c i n ]

-- A pool whose counter is there and has room for one more reader.
abbrev pub HasRoom : PoolReadCounters → ℕ → Type 0
HasRoom c i = (n : ℕ) × (get_elem? c.counters i ≡ some n) × (n + 1 < 2 ^ 64)

abbrev guards_of : List ℕ → List PoolReadGuard
guards_of is = map (λ i. record { pool_idx = i }) is

abbrev Apart : ℕ → ℕ → Type 0
Apart i j = i ≢ j

apart : (i : ℕ) (js : List ℕ) → All (Apart i) (keep (λ j. not (i == j)) js)
apart i [] = tt
apart i (j ∷ js) = elim (Bool-cases (i == j)) [
  | inl e ↦ rw e (apart i js)
  | inr e ↦ rw e ((λ q. ground arith), apart i js)
]

distinct_pools-Apart : (is : List ℕ) → Ordered Apart (distinct_pools is)
unfolding distinct_pools
distinct_pools-Apart [] = tt
distinct_pools-Apart (i ∷ is) = (
  apart i (distinct_pools is),
  Ordered-keep Apart _ (distinct_pools is) (distinct_pools-Apart is),
)

All-distinct_pools {κ} : (P : ℕ → Type κ) (is : List ℕ) → All P is → All P (distinct_pools is)
unfolding distinct_pools
All-distinct_pools P [] h = h
All-distinct_pools P (i ∷ is) h =
    (h.0, All-keep P _ (distinct_pools is) (All-distinct_pools P is h.1))

bump-entered :
    (c : PoolReadCounters) (i n : ℕ) → get_elem? c.counters i ≡ some n → bump c i ≡ entered c i n
bump-entered c i n e = rw (bump, e) refl

HasRoom-bump :
    (c : PoolReadCounters) (i j : ℕ) → HasRoom c i → HasRoom c j → j ≢ i → HasRoom (bump c j) i
HasRoom-bump c i j (n, e, lt) (m, f, lt2) ne =
    rw (bump-entered c j m f) (n, get_elem?-set_ne c.counters j i (m + 1) ne ∙ e, lt)

All-HasRoom-bump :
    (c : PoolReadCounters) (j : ℕ) (is : List ℕ)
    → All (HasRoom c) is
    → HasRoom c j
    → All (Apart j) is
    → All (HasRoom (bump c j)) is
All-HasRoom-bump c j [] h r a = tt
All-HasRoom-bump c j (i ∷ is) h r a =
    (HasRoom-bump c i j h.0 r a.0, All-HasRoom-bump c j is h.1 r a.1)

bump-bump :
    (c : PoolReadCounters) (i j : ℕ)
    → HasRoom c i
    → HasRoom c j
    → i ≢ j
    → bump (bump c i) j ≡ bump (bump c j) i
bump-bump c i j (n, e, lt) (m, f, lt2) ne =
    rw
      (
        bump-entered c i n e,
        bump-entered c j m f,
        bump-entered (entered c i n) j m (get_elem?-set_ne c.counters i j (n + 1) ne ∙ f),
        bump-entered (entered c j m) i n
            (get_elem?-set_ne c.counters j i (m + 1) (λ q. ne (sym q)) ∙ e),
        set_comm c.counters i j (n + 1) (m + 1) ne,
      )
      refl

-- One more reader of each of these pools.
abbrev raise : PoolReadCounters → List ℕ → PoolReadCounters
raise c [] = c
raise c (i ∷ is) = raise (bump c i) is

raise-bump :
    (c : PoolReadCounters) (i : ℕ) (is : List ℕ)
    → HasRoom c i
    → All (HasRoom c) is
    → All (Apart i) is
    → Ordered Apart is
    → (raise (bump c i) is ≡ bump (raise c is) i) × HasRoom (raise c is) i
raise-bump c i [] r h a o = (refl, r)
raise-bump c i (j ∷ js) r h a o =
    let (e, room) =
      raise-bump (bump c j) i js (HasRoom-bump c i j r h.0 (λ q. a.0 (sym q)))
        (All-HasRoom-bump c j js h.1 h.0 o.0) a.1 o.1 in
    (ap (λ d. raise d js) (bump-bump c i j r h.0 a.0) ∙ e, room)

-- What `acquire` and `drop_guard` do to a counter with room.
bump-acquire :
    (c : PoolReadCounters) (i : ℕ)
    → HasRoom c i
    → (acquire c i ≡ ok (bump c i, record { pool_idx = i }))
      × (drop_guard (bump c i) (record { pool_idx = i }) ≡ ok c)
bump-acquire c i (n, e, lt) =
    let (got, held, others, dropped) = acquire-drop_guard c i n e lt in
    (rw (bump-entered c i n e) got, rw (bump-entered c i n e) dropped)

acquire_all-raise :
    (c : PoolReadCounters) (is : List ℕ)
    → All (HasRoom c) is
    → Ordered Apart is
    → acquire_all c is ≡ ok (raise c is, guards_of is)
unfolding acquire_all
acquire_all-raise c [] h o = refl
acquire_all-raise c (i ∷ is) h o =
    rw
      (
        acquire_all,
        (bump-acquire c i h.0).0,
        acquire_all-raise (bump c i) is (All-HasRoom-bump c i is h.1 h.0 o.0) o.1,
      )
      refl

drop_all-raise :
    (c : PoolReadCounters) (is : List ℕ)
    → All (HasRoom c) is
    → Ordered Apart is
    → drop_all (raise c is) (guards_of is) ≡ ok c
unfolding drop_all
drop_all-raise c [] h o = refl
drop_all-raise c (i ∷ is) h o =
    let (e, room) = raise-bump c i is h.0 h.1 o.0 o.1 in
    rw (e, drop_all, (bump-acquire (raise c is) i room).1) (drop_all-raise c is h.1 o.1)

All-pools {κ} :
    (P : ℕ → Type κ) (ms : List SegmentMeta)
    → All (λ m. P m.location.pool_idx) ms
    → All P (map (λ (m : SegmentMeta). m.location.pool_idx) ms)
All-pools P [] h = tt
All-pools P (m ∷ ms) h = (h.0, All-pools P ms h.1)

-- Once its times are read and the pool is opened, an export gives the reply for what `export_range`
-- gave, and leaves the read counters as they were, since every guard that was taken is dropped,
-- whether the export succeeds or fails. The pools of the segments must have counters with room for
-- one more reader.
pub handle_export-opened :
    (parse : Parse) (ch : Chrono) (clock : ℕ → Time) (now : Time) (env : Surroundings)
    (state : AppState) (params : ExportParams) (from to : Time) (opened : Store)
    → parse params.from ≡ some from
    → parse params.to ≡ some to
    → open_pool ch clock
        (pool_bytes state.config.storage)
        now
        state.store.disk
        state.config.storage.max_pools
      ≡ ok opened
    → All
        (λ m. HasRoom state.read_counters m.location.pool_idx)
        (segments_in_range state.index params.camera from to)
    → handle_export parse ch clock now env state params ≡ (
        export_reply (export_range env opened state.index params.camera from to) >>= λ reply.
        ok (reply, record state { store = record state.store { disk = opened.disk } }))
unfolding handle_export
handle_export-opened parse ch clock now env state params from to opened f t opens room =
    let is =
      map (λ (m : SegmentMeta). m.location.pool_idx)
        (segments_in_range state.index params.camera from to) in
    let free = All-distinct_pools (HasRoom state.read_counters) is (All-pools _ _ room) in
    rw
      (
        handle_export,
        f,
        t,
        opens,
        acquire_all-raise state.read_counters (distinct_pools is) free (distinct_pools-Apart is),
        drop_all-raise state.read_counters (distinct_pools is) free (distinct_pools-Apart is),
      )
      refl
