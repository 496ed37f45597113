-- ===== src/Api/Cameras/Tables.antt =====
-- Which cameras the configuration and the table of workers name, as cameras come and go.
use oasis_nvr.Prelude.{
  ◌≡◌, ◌≢◌, refl, Bool, true, false, ◌&&◌, ◌||◌, not, none, some, List, [], ◌∷◌, ◌++◌, arith, keep,
  All, Ordered, bytes_eq, bytes_eq_refl, bytes_eq→eq, inl, inr, Bool-cases,
}
use oasis_nvr.Utf8.{Text}
use oasis_nvr.Config.{CameraConfig}
use oasis_nvr.Manager.{WorkerEntry, find_worker, remove_worker, insert_worker}

abbrev pub has_id : Text → List CameraConfig → Bool
has_id id [] = false
has_id id (c ∷ cs) = bytes_eq c.id id || has_id id cs

abbrev pub has_worker : Text → List (Text × WorkerEntry) → Bool
has_worker id [] = false
has_worker id ((k, e) ∷ ws) = bytes_eq k id || has_worker id ws

abbrev pub KeysDiffer : Text × WorkerEntry → Text × WorkerEntry → Type 0
KeysDiffer a b = a.0 ≢ b.0

-- A worker stands in the table under the id of its camera.
abbrev pub IsFiled : Text × WorkerEntry → Type 0
IsFiled w = w.0 ≡ w.1.config.id

pub has_id-snoc :
    (id : Text) (cs : List CameraConfig) (c : CameraConfig)
    → has_id id (cs ++ (c ∷ [])) ≡ (bytes_eq c.id id || has_id id cs)
has_id-snoc id [] c = refl
has_id-snoc id (d ∷ cs) c = ground (arith, has_id-snoc id cs c)

pub has_id-keep :
    (id gone : Text) (cs : List CameraConfig)
    → has_id id (keep (λ c. not (bytes_eq c.id gone)) cs) ≡ (not (bytes_eq gone id) && has_id id cs)
has_id-keep id gone [] = ground arith
has_id-keep id gone (c ∷ cs) = ground (
  arith,
  has_id-keep id gone cs,
  bytes_eq→eq c.id gone,
  bytes_eq→eq c.id id,
  bytes_eq→eq gone id,
  bytes_eq_refl id,
  bytes_eq_refl c.id,
)

pub find-has :
    (id : Text) (ws : List (Text × WorkerEntry))
    → find_worker id ws ≡ none
    → has_worker id ws ≡ false
unfolding find_worker
find-has id [] h = refl
find-has id ((k, e) ∷ ws) h = ground (arith, find-has id ws)

absent :
    (id : Text) (e : WorkerEntry) (ws : List (Text × WorkerEntry))
    → All (KeysDiffer (id, e)) ws
    → has_worker id ws ≡ false
absent id e [] h = refl
absent id e ((k, f) ∷ ws) h = ground (arith, h.0, absent id e ws h.1, bytes_eq→eq k id)

pub has_worker-remove :
    (id gone : Text) (ws : List (Text × WorkerEntry))
    → Ordered KeysDiffer ws
    → has_worker id (remove_worker gone ws) ≡ (not (bytes_eq gone id) && has_worker id ws)
unfolding remove_worker
has_worker-remove id gone [] u = ground arith
has_worker-remove id gone ((k, e) ∷ ws) u = ground (
  arith,
  has_worker-remove id gone ws u.1,
  absent k e ws u.0,
  bytes_eq→eq k gone,
  bytes_eq→eq k id,
  bytes_eq→eq gone id,
  bytes_eq_refl id,
  bytes_eq_refl k,
)

pub All-remove {κ} :
    (P : Text × WorkerEntry → Type κ) (gone : Text) (ws : List (Text × WorkerEntry))
    → All P ws
    → All P (remove_worker gone ws)
unfolding remove_worker
All-remove P gone [] h = h
All-remove P gone ((k, e) ∷ ws) h = elim (Bool-cases (bytes_eq k gone)) [
  | inl t ↦ rw t h.1
  | inr f ↦ rw f (h.0, All-remove P gone ws h.1)
]

pub remove_unique :
    (gone : Text) (ws : List (Text × WorkerEntry))
    → Ordered KeysDiffer ws
    → Ordered KeysDiffer (remove_worker gone ws)
unfolding remove_worker
remove_unique gone [] u = u
remove_unique gone ((k, e) ∷ ws) u = elim (Bool-cases (bytes_eq k gone)) [
  | inl t ↦ rw t u.1
  | inr f ↦ rw f (All-remove (KeysDiffer (k, e)) gone ws u.0, remove_unique gone ws u.1)
]

differs :
    (id : Text) (e : WorkerEntry) (ws : List (Text × WorkerEntry))
    → has_worker id ws ≡ false
    → All (KeysDiffer (id, e)) ws
differs id e [] h = tt
differs id e ((k, f) ∷ ws) h =
    ((λ q. ground (arith, bytes_eq_refl id)), differs id e ws (ground arith))

pub find_some-has :
    (id : Text) (ws : List (Text × WorkerEntry)) (e : WorkerEntry)
    → find_worker id ws ≡ some e
    → has_worker id ws ≡ true
unfolding find_worker
find_some-has id [] e h = cc
find_some-has id ((k, f) ∷ ws) e h = ground (arith, find_some-has id ws e)

pub or-and : (a b : Bool) → (a || b) ≡ (a || (not a && b))
or-and true b = refl
or-and false b = refl

-- A worker that is entered replaces one of its id.
pub insert_unique :
    (id : Text) (e : WorkerEntry) (ws : List (Text × WorkerEntry))
    → Ordered KeysDiffer ws
    → Ordered KeysDiffer (insert_worker id e ws)
unfolding insert_worker
insert_unique id e ws u = (
  differs id e (remove_worker id ws) (rw (has_worker-remove id id ws u, bytes_eq_refl id) refl),
  remove_unique id ws u,
)
