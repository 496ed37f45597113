-- ===== src/Api/Cameras/Listed.antt =====
-- `handle_list_cameras` of src/api.rs: the cameras at work and those that only have recordings.
use oasis_nvr.Prelude.{
  ◌≡◌, ◌≢◌, refl, ◌∙◌, sym, ap, Bool, true, false, ◌&&◌, ◌||◌, not, List, [], ◌∷◌, ◌++◌, map, arith,
  keep, keep-All, length, All, All_mono, Ordered, Ordered-keep, bytes_eq, bytes_eq_refl,
  bytes_eq→eq, inl, inr, Bool-cases,
}
use oasis_nvr.Utf8.{Text, contains}
use oasis_nvr.Config.{CameraConfig}
use oasis_nvr.Manager.{WorkerEntry, list_cameras}
use oasis_nvr.Storage.Index.{SegmentIndex, all_segments, cameras}
use oasis_nvr.Storage.Index.Cameras.{Less, text_lt_irrefl, cameras-sorted}
use oasis_nvr.Api.{AppState, json, answer}
use oasis_nvr.Api.Cameras.{Listing, active, offline, handle_list_cameras}
use oasis_nvr.Api.Cameras.Tables.{has_id, has_worker, KeysDiffer, IsFiled}
use oasis_nvr.Api.Cameras.Sync.{InSync}

abbrev pub id_of : Listing → Text
id_of (active c) = c.id
id_of (offline id) = id

abbrev recorded : SegmentIndex → Text → Bool
recorded ix id = contains (map (λ m. m.camera_id) (all_segments ix)) id

abbrev HasStatus : AppState → Listing → Type 0
HasStatus state (active c) = has_id c.id state.config.cameras ≡ true
HasStatus state (offline id) = has_id id state.config.cameras ≡ false

-- The list has no id twice, and the ids of exactly the cameras that are configured or have a segment
-- in the index; active are those that are configured.
pub record ListsAll (state : AppState) (list : List Listing) : Type 0 where
  pub once : Ordered ◌≢◌ (map id_of list)
  pub exactly :
      (id : Text)
      → contains (map id_of list) id ≡ (has_id id state.config.cameras || recorded state.index id)
  pub statuses : All (HasStatus state) list

contains-append :
    (xs ys : List Text) (t : Text) → contains (xs ++ ys) t ≡ (contains xs t || contains ys t)
contains-append [] ys t = refl
contains-append (x ∷ xs) ys t = ground (arith, contains-append xs ys t)

contains-keep :
    (seen xs : List Text) (t : Text)
    → contains (keep (λ id. not (contains seen id)) xs) t ≡ (not (contains seen t) && contains xs t)
contains-keep seen [] t = ground arith
contains-keep seen (x ∷ xs) t = elim (Bool-cases (bytes_eq x t)) [
  | inl e ↦
      let same : x ≡ t = bytes_eq→eq x t e in
      rw same (ground (arith, contains-keep seen xs t, bytes_eq_refl t))
  | inr f ↦ ground (arith, contains-keep seen xs t)
]

Ordered-append :
    (xs ys : List Text)
    → Ordered ◌≢◌ xs
    → Ordered ◌≢◌ ys
    → All (λ y. contains xs y ≡ false) ys
    → Ordered ◌≢◌ (xs ++ ys)
Ordered-append [] ys h k apart = k
Ordered-append (x ∷ xs) ys h k apart =
    (front xs h.0, Ordered-append xs ys h.1 k (All_mono _ _ ys (λ y a. ground (arith, a)) apart))
  where
    other : (y : Text) → contains (x ∷ xs) y ≡ false → x ≢ y
    other y a = λ e. absurd (ground (arith, a, bytes_eq_refl y, ap (λ w. bytes_eq w y) e))

    front : (ws : List Text) → All (◌≢◌ x) ws → All (◌≢◌ x) (ws ++ ys)
    front [] g = All_mono _ _ ys other apart
    front (w ∷ ws) g = (g.0, front ws g.1)

ids : List CameraConfig → List Text
ids cs = map (λ c. c.id) cs

ids-map :
    (cs : List CameraConfig) (offs : List Text)
    → map id_of (map active cs ++ map offline offs) ≡ ids cs ++ offs
unfolding ids
ids-map [] [] = refl
ids-map [] (o ∷ offs) = ap (◌∷◌ o) (ids-map [] offs)
ids-map (c ∷ cs) offs = ap (◌∷◌ c.id) (ids-map cs offs)

contains-ids :
    (ws : List (Text × WorkerEntry)) (id : Text)
    → All IsFiled ws
    → contains (ids (map (λ w. w.1.config) ws)) id ≡ has_worker id ws
unfolding ids
contains-ids [] id filed = refl
contains-ids ((k, e) ∷ ws) id (same, filed) = rw same (ground (arith, contains-ids ws id filed))

ids-Ordered :
    (ws : List (Text × WorkerEntry))
    → All IsFiled ws
    → Ordered KeysDiffer ws
    → Ordered ◌≢◌ (ids (map (λ w. w.1.config) ws))
unfolding ids
ids-Ordered [] filed h = tt
ids-Ordered ((k, e) ∷ ws) (same, filed) h = (differ ws filed h.0, ids-Ordered ws filed h.1)
  where
    differ :
        (vs : List (Text × WorkerEntry))
        → All IsFiled vs
        → All (KeysDiffer (k, e)) vs
        → All (◌≢◌ e.config.id) (ids (map (λ w. w.1.config) vs))
    differ [] f g = tt
    differ (v ∷ vs) (at, f) (ne, g) = (λ p. absurd (ne (same ∙ p ∙ sym at)), differ vs f g)

Less-Ordered : (ts : List Text) → Ordered Less ts → Ordered ◌≢◌ ts
Less-Ordered [] h = tt
Less-Ordered (t ∷ ts) h = (All_mono _ _ ts differ h.0, Less-Ordered ts h.1)
  where
    differ : (x : Text) → Less t x → t ≢ x
    differ x l = λ p. absurd (ground (arith, l, text_lt_irrefl x, p))

unseen :
    (seen xs : List Text)
    → All (λ y. contains seen y ≡ false) (keep (λ id. not (contains seen id)) xs)
unseen seen xs =
    All_mono _ _ (keep (λ id. not (contains seen id)) xs) (λ y h. ground (arith, h))
      (keep-All (λ id. not (contains seen id)) xs)

seen_all : (cs : List CameraConfig) → All (λ c. contains (ids cs) c.id ≡ true) cs
unfolding ids
seen_all [] = tt
seen_all (c ∷ cs) =
    (ground (arith, bytes_eq_refl c.id), All_mono _ _ cs (λ d h. ground (arith, h)) (seen_all cs))

HasStatus-append :
    (state : AppState) (cs : List CameraConfig) (offs : List Text)
    → All (λ c. has_id c.id state.config.cameras ≡ true) cs
    → All (λ id. has_id id state.config.cameras ≡ false) offs
    → All (HasStatus state) (map active cs ++ map offline offs)
HasStatus-append state [] [] h k = tt
HasStatus-append state [] (o ∷ offs) h k = (k.0, HasStatus-append state [] offs h k.1)
HasStatus-append state (c ∷ cs) offs h k = (h.0, HasStatus-append state cs offs h.1 k)

-- As long as the configuration and the workers agree, the request answers with all cameras: no id
-- twice, the ids of exactly those that are configured or have a segment in the index, active those
-- that are configured, and with their number.
pub handle_list_cameras-ListsAll :
    (state : AppState)
    → InSync state
    → (list : List Listing) × (handle_list_cameras state
        ≡ answer json (record { cameras = list; total = length list }))
      × ListsAll state list
unfolding handle_list_cameras list_cameras ids
handle_list_cameras-ListsAll state sync = (
  map active cs ++ map offline offs,
  refl,
  record {
    once = rw (ids-map cs offs) (
        Ordered-append (ids cs) offs (ids-Ordered state.manager.workers sync.filed sync.unique)
          (Ordered-keep ◌≢◌ _ (cameras state.index)
            (Less-Ordered (cameras state.index) (cameras-sorted state.index []).0))
          (unseen (ids cs) (cameras state.index)));
    exactly = λ id. rw (ids-map cs offs) (
        ground (
          arith,
          contains-append (ids cs) offs id,
          contains-keep (ids cs) (cameras state.index) id,
          configured id,
          (cameras-sorted state.index id).1,
        ));
    statuses =
        HasStatus-append state cs offs
          (All_mono _ _ cs (λ c h. sym (configured c.id) ∙ h) (seen_all cs))
          (All_mono _ _ offs (λ id h. sym (configured id) ∙ h)
            (unseen (ids cs) (cameras state.index)));
  },
)
  where
    cs : List CameraConfig
    cs = list_cameras state.manager

    offs : List Text
    offs = keep (λ id. not (contains (ids cs) id)) (cameras state.index)

    configured : (id : Text) → contains (ids cs) id ≡ has_id id state.config.cameras
    configured id = contains-ids state.manager.workers id sync.filed ∙ sym (sync.same id)
