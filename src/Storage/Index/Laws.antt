-- ===== src/Storage/Index/Laws.antt =====
-- The order of the index, and the invariant that its operations keep.
use oasis_nvr.Prelude.{
  ℕ, ◌+◌, ◌%◌, ◌^◌, keep, not, ap, ◌==◌, if◌then◌else◌, ◌<◌, ◌≡◌, ◌≢◌, refl, Bool, true, false,
  List, [], ◌∷◌, arith, bytes_eq_refl, bytes_eq→eq, All, Ordered, All-keep, Ordered-keep, inl, inr,
  Bool-cases,
}
use oasis_nvr.Chrono.{Time}
use oasis_nvr.Utf8.{Text}
use oasis_nvr.Storage.ChunkPool.Types.{SegmentLocation}
use oasis_nvr.Storage.Index.{
  IndexKey, Entry, SegmentIndex, text_lt, key_lt, map_insert, insert, evict_pool,
}

pub text_lt_trans : (a b c : Text) → text_lt a b ≡ true → text_lt b c ≡ true → text_lt a c ≡ true
unfolding text_lt
text_lt_trans [] [] c h k = cc
text_lt_trans [] (y ∷ ys) [] h k = cc
text_lt_trans [] (y ∷ ys) (z ∷ zs) h k = refl
text_lt_trans (x ∷ xs) [] c h k = cc
text_lt_trans (x ∷ xs) (y ∷ ys) [] h k = cc
text_lt_trans (x ∷ xs) (y ∷ ys) (z ∷ zs) h k = ground (arith, text_lt_trans xs ys zs)

pub text_lt_total : (a b : Text) → text_lt a b ≡ false → text_lt b a ≡ false → a ≡ b
unfolding text_lt
text_lt_total [] [] h k = refl
text_lt_total [] (y ∷ ys) h k = cc
text_lt_total (x ∷ xs) [] h k = cc
text_lt_total (x ∷ xs) (y ∷ ys) h k = ground (arith, text_lt_total xs ys)

key_lt_trans : (a b c : IndexKey) → key_lt a b ≡ true → key_lt b c ≡ true → key_lt a c ≡ true
unfolding key_lt
key_lt_trans a b c h k = ground (
  arith,
  text_lt_trans a.camera_id b.camera_id c.camera_id,
  bytes_eq→eq a.camera_id b.camera_id,
  bytes_eq→eq b.camera_id c.camera_id,
  bytes_eq_refl c.camera_id,
)

-- Keys of which neither is below the other have one id.
pub key_lt_total :
    (a b : IndexKey) → key_lt a b ≡ false → key_lt b a ≡ false → a.segment_id ≡ b.segment_id
unfolding key_lt
key_lt_total a b h k =
    ground (arith, text_lt_total a.camera_id b.camera_id, bytes_eq_refl b.camera_id)

-- Each entry is filed under the key of its own fields, with an id that was given out before.
pub record IsFiled (n : ℕ) (e : Entry) : Type 0 where
  pub same_camera : e.0.camera_id ≡ e.1.camera_id
  pub same_start : e.0.start_ts ≡ e.1.start_ts
  pub same_id : e.0.segment_id ≡ e.1.segment_id
  pub given : e.0.segment_id < n

abbrev pub Before : Entry → Entry → Type 0
Before e f = key_lt e.0 f.0 ≡ true

abbrev pub Differ : Entry → Entry → Type 0
Differ e f = e.1.segment_id ≢ f.1.segment_id

-- The entries stand in the order of their keys, each is filed rightly, and no two have one id.
pub record IsValid (ix : SegmentIndex) : Type 0 where
  pub ordered : Ordered Before ix.entries
  pub distinct : Ordered Differ ix.entries
  pub filed : All (IsFiled ix.segment_counter) ix.entries

Before-trans : (e f : Entry) (es : List Entry) → Before e f → All (Before f) es → All (Before e) es
Before-trans e f [] h k = tt
Before-trans e f (g ∷ gs) h k = (key_lt_trans e.0 f.0 g.0 h k.0, Before-trans e f gs h k.1)

pub All-map_insert {κ} :
    (P : Entry → Type κ) (e : Entry) (es : List Entry) → P e → All P es → All P (map_insert e es)
unfolding map_insert
All-map_insert P e [] p h = (p, tt)
All-map_insert P e (f ∷ fs) p h = elim (Bool-cases (key_lt e.0 f.0)) [
  | inl lt ↦ rw lt (p, h)
  | inr ge ↦ rw ge (elim (Bool-cases (key_lt f.0 e.0)) [
    | inl gt ↦ rw gt (h.0, All-map_insert P e fs p h.1)
    | inr eq ↦ rw eq (p, h.1)
  ])
]

-- A new id is in no entry, so nothing is replaced.
map_insert-Ordered :
    (e : Entry) (es : List Entry)
    → All (IsFiled e.0.segment_id) es
    → Ordered Before es
    → Ordered Before (map_insert e es)
unfolding map_insert
map_insert-Ordered e [] fresh h = (tt, tt)
map_insert-Ordered e (f ∷ fs) fresh h = elim (Bool-cases (key_lt e.0 f.0)) [
  | inl lt ↦ rw lt ((lt, Before-trans e f fs lt h.0), h)
  | inr ge ↦ rw ge (elim (Bool-cases (key_lt f.0 e.0)) [
    | inl gt ↦ rw gt (All-map_insert (Before f) e fs gt h.0, map_insert-Ordered e fs fresh.1 h.1)
    | inr eq ↦ absurd (omega (arith, key_lt_total e.0 f.0 ge eq, fresh.0.given))
  ])
]

All-Differ : (e : Entry) (es : List Entry) → All (IsFiled e.1.segment_id) es → All (Differ e) es
All-Differ e [] h = tt
All-Differ e (f ∷ fs) h = (λ q. omega (arith, h.0.same_id, h.0.given), All-Differ e fs h.1)

map_insert-distinct :
    (e : Entry) (es : List Entry)
    → All (IsFiled e.1.segment_id) es
    → Ordered Differ es
    → Ordered Differ (map_insert e es)
unfolding map_insert
map_insert-distinct e [] fresh h = (tt, tt)
map_insert-distinct e (f ∷ fs) fresh h = elim (Bool-cases (key_lt e.0 f.0)) [
  | inl lt ↦ rw lt (All-Differ e (f ∷ fs) fresh, h)
  | inr ge ↦ rw ge (elim (Bool-cases (key_lt f.0 e.0)) [
    | inl gt ↦ rw gt (
      All-map_insert (Differ f) e fs (λ q. omega (arith, fresh.0.same_id, fresh.0.given)) h.0,
      map_insert-distinct e fs fresh.1 h.1,
    )
    | inr eq ↦ rw eq (All-Differ e fs fresh.1, h.1)
  ])
]

All-IsFiled-mono : (n : ℕ) (es : List Entry) → All (IsFiled n) es → All (IsFiled (n + 1)) es
All-IsFiled-mono n [] h = tt
All-IsFiled-mono n (e ∷ es) h = (ground arith, All-IsFiled-mono n es h.1)

-- Inserting a segment keeps the order of the index and the ids distinct, and files the segment under
-- a new id, which the counter gives, as long as the counter does not wrap.
pub insert-IsValid :
    (ix : SegmentIndex) (camera_id : Text) (start_ts end_ts : Time) (location : SegmentLocation)
    → ix.segment_counter + 1 < 2 ^ 64
    → IsValid ix
    → IsValid (insert ix camera_id start_ts end_ts location).0
      × ((insert ix camera_id start_ts end_ts location).1 ≡ ix.segment_counter)
unfolding insert
insert-IsValid ix camera_id start_ts end_ts location h v =
    let next : (ix.segment_counter + 1) % 2 ^ 64 ≡ ix.segment_counter + 1 = omega arith in
    (
      record {
        ordered = map_insert-Ordered _ ix.entries v.filed v.ordered;
        distinct = map_insert-distinct _ ix.entries v.filed v.distinct;
        filed = rw next (
            All-map_insert (IsFiled (ix.segment_counter + 1)) _ ix.entries
              (record {
                same_camera = refl;
                same_start = refl;
                same_id = refl;
                given = omega arith;
              })
              (All-IsFiled-mono ix.segment_counter ix.entries v.filed));
      },
      refl,
    )

abbrev pub in_pool : ℕ → Entry → Bool
in_pool pool_idx e = e.1.location.pool_idx == pool_idx

pub elsewhere :
    (pool_idx : ℕ) (es : List Entry)
    → All (λ e. e.1.location.pool_idx ≢ pool_idx) (keep (λ e. not (in_pool pool_idx e)) es)
elsewhere pool_idx [] = tt
elsewhere pool_idx (e ∷ es) = elim (Bool-cases (in_pool pool_idx e)) [
  | inl t ↦ rw t (elsewhere pool_idx es)
  | inr f ↦ rw f ((λ q. ground arith), elsewhere pool_idx es)
]

keep_others :
    (p q : ℕ) (es : List Entry)
    → p ≢ q
    → keep (in_pool q) (keep (λ e. not (in_pool p e)) es) ≡ keep (in_pool q) es
keep_others p q [] h = refl
keep_others p q (e ∷ es) h = elim (Bool-cases (in_pool p e)) [
  | inl t ↦ let other : in_pool q e ≡ false = ground arith in rw (t, other) (keep_others p q es h)
  | inr f ↦ rw f (ap (λ r. if in_pool q e then e ∷ r else r) (keep_others p q es h))
]

-- Evicting a pool leaves the entries of every other pool as they were.
pub evict_pool-others :
    (ix : SegmentIndex) (p q : ℕ)
    → p ≢ q
    → keep (in_pool q) (evict_pool ix p).entries ≡ keep (in_pool q) ix.entries
unfolding evict_pool
evict_pool-others ix p q h = keep_others p q ix.entries h

-- Evicting a pool leaves no entry of that pool, and keeps the others in their order
-- and rightly filed.
pub evict_pool-IsValid :
    (ix : SegmentIndex) (pool_idx : ℕ)
    → IsValid ix
    → IsValid (evict_pool ix pool_idx)
      × All (λ e. e.1.location.pool_idx ≢ pool_idx) (evict_pool ix pool_idx).entries
unfolding evict_pool
evict_pool-IsValid ix pool_idx v = (
  record {
    ordered = Ordered-keep Before _ ix.entries v.ordered;
    distinct = Ordered-keep Differ _ ix.entries v.distinct;
    filed = All-keep (IsFiled ix.segment_counter) _ ix.entries v.filed;
  },
  elsewhere pool_idx ix.entries,
)
