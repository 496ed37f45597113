-- ===== src/Storage/ChunkPool/Readers/Laws.antt =====
-- A guard holds its pool until it is dropped.
use oasis_nvr.Prelude.{
  ℕ, zero, suc, ap, ◌+◌, ◌-◌, ◌%◌, ◌^◌, ◌<◌, ◌≡◌, ◌≢◌, refl, true, List, [], ◌∷◌, some, arith,
  get_elem?, set, add64, get_elem?-set_self, get_elem?-set_ne, lt_of_get_elem?, lt→ltb,
}
use oasis_nvr.Outcome.{ok}
use oasis_nvr.Storage.ChunkPool.Readers.{PoolReadCounters, acquire, has_readers, drop_guard}

set-set {ℓ} : {A : Type ℓ} (xs : List A) (i : ℕ) (v w : A) → set (set xs i v) i w ≡ set xs i w
set-set [] i v w = refl
set-set (x ∷ xs) zero v w = refl
set-set (x ∷ xs) (suc i) v w = ap (◌∷◌ x) (set-set xs i v w)

set-get_elem? {ℓ} :
    {A : Type ℓ} (xs : List A) (i : ℕ) (v : A) → get_elem? xs i ≡ some v → set xs i v ≡ xs
set-get_elem? [] i v h = refl
set-get_elem? (x ∷ xs) zero v h = ground arith
set-get_elem? (x ∷ xs) (suc i) v h = ap (◌∷◌ x) (set-get_elem? xs i v h)

-- The counters with one more reader of a pool that has `n`.
abbrev pub entered : PoolReadCounters → ℕ → ℕ → PoolReadCounters
entered c i n = record { counters = set c.counters i (n + 1) }

-- While a guard that `acquire` gave is held its pool has readers, and what the counters say of the
-- other pools is unchanged; dropping it restores the counters.
pub acquire-drop_guard :
    (c : PoolReadCounters) (i n : ℕ)
    → get_elem? c.counters i ≡ some n
    → n + 1 < 2 ^ 64
    → (acquire c i ≡ ok (entered c i n, record { pool_idx = i }))
      × (has_readers (entered c i n) i ≡ ok true)
      × ((j : ℕ) → i ≢ j → has_readers (entered c i n) j ≡ has_readers c j)
      × (drop_guard (entered c i n) (record { pool_idx = i }) ≡ ok c)
unfolding acquire has_readers drop_guard
acquire-drop_guard c i n h small =
    let lt = lt_of_get_elem? c.counters i n h in
    let up : add64 n 1 ≡ n + 1 = omega arith in
    let down : (n + 1 + 2 ^ 64 - 1) % 2 ^ 64 ≡ n = omega arith in
    (
      rw (h, up),
      rw (get_elem?-set_self c.counters i (n + 1) lt, lt→ltb 0 (n + 1) (omega arith)),
      (λ j ne. rw (get_elem?-set_ne c.counters i j (n + 1) ne)),
      rw (
        get_elem?-set_self c.counters i (n + 1) lt,
        down,
        set-set c.counters i (n + 1) n,
        set-get_elem? c.counters i n h,
      ),
    )
