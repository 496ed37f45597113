-- ===== src/Storage/Index/Cameras.antt =====
-- `cameras` of src/storage/index.rs: which cameras it lists, and in what order.
use oasis_nvr.Prelude.{
  ◌≡◌, refl, ◌∙◌, Bool, true, false, ◌||◌, List, [], ◌∷◌, map, arith, bytes_eq, bytes_eq_refl,
  bytes_eq→eq, All, Ordered, inl, inr, Bool-cases,
}
use oasis_nvr.Utf8.{Text, contains}
use oasis_nvr.Storage.Index.{
  SegmentIndex, text_lt, place, sort_texts, drop_equal, dedup, all_segments, cameras,
}
use oasis_nvr.Storage.Index.Laws.{text_lt_trans, text_lt_total}

-- One text stands before or with the other, or before it.
abbrev pub AtMost : Text → Text → Type 0
AtMost a b = text_lt b a ≡ false

abbrev pub Less : Text → Text → Type 0
Less a b = text_lt a b ≡ true

pub text_lt_irrefl : (a : Text) → text_lt a a ≡ false
unfolding text_lt
text_lt_irrefl [] = refl
text_lt_irrefl (x ∷ xs) = ground (arith, text_lt_irrefl xs)

Less-AtMost : (a b : Text) → Less a b → AtMost a b
Less-AtMost a b h = elim (Bool-cases (text_lt b a)) [
  | inr f ↦ f
  | inl t ↦ absurd (ground (arith, text_lt_trans a b a h t, text_lt_irrefl a))
]

AtMost-trans : (a b c : Text) → AtMost a b → AtMost b c → AtMost a c
AtMost-trans a b c h k = elim (Bool-cases (text_lt c a)) [
  | inr f ↦ f
  | inl t ↦ elim (Bool-cases (text_lt a b)) [
    | inl l ↦ absurd (ground (arith, text_lt_trans c a b t l))
    | inr g ↦ let same : a ≡ b = text_lt_total a b g h in absurd (ground (arith))
  ]
]

All-AtMost-trans :
    (a b : Text) (ts : List Text) → AtMost a b → All (AtMost b) ts → All (AtMost a) ts
All-AtMost-trans a b [] h k = tt
All-AtMost-trans a b (t ∷ ts) h k = (AtMost-trans a b t h k.0, All-AtMost-trans a b ts h k.1)

All-place : (P : Text → Type 0) (t : Text) (ts : List Text) → P t → All P ts → All P (place t ts)
unfolding place
All-place P t [] p h = (p, tt)
All-place P t (y ∷ ys) p h = elim (Bool-cases (text_lt y t)) [
  | inl l ↦ rw l (h.0, All-place P t ys p h.1)
  | inr f ↦ rw f (p, h)
]

place-Ordered : (t : Text) (ts : List Text) → Ordered AtMost ts → Ordered AtMost (place t ts)
unfolding place
place-Ordered t [] h = (tt, tt)
place-Ordered t (y ∷ ys) h = elim (Bool-cases (text_lt y t)) [
  | inl l ↦ rw l (All-place (AtMost y) t ys (Less-AtMost y t l) h.0, place-Ordered t ys h.1)
  | inr f ↦ rw f ((f, All-AtMost-trans t y ys f h.0), h)
]

sort_texts-Ordered : (ts : List Text) → Ordered AtMost (sort_texts ts)
unfolding sort_texts
sort_texts-Ordered [] = tt
sort_texts-Ordered (t ∷ ts) = place-Ordered t (sort_texts ts) (sort_texts-Ordered ts)

All-Less-trans : (a b : Text) (ts : List Text) → Less a b → All (Less b) ts → All (Less a) ts
All-Less-trans a b [] h k = tt
All-Less-trans a b (t ∷ ts) h k = (text_lt_trans a b t h k.0, All-Less-trans a b ts h k.1)

-- A text in front of greater texts and perhaps of one that is equal.
drop_equal-Ordered :
    (t : Text) (ts : List Text)
    → All (AtMost t) ts
    → Ordered Less ts
    → Ordered Less (t ∷ drop_equal t ts)
unfolding drop_equal
drop_equal-Ordered t [] h k = (tt, tt)
drop_equal-Ordered t (y ∷ ys) h k = elim (Bool-cases (bytes_eq t y)) [
  | inl e ↦ let same : t ≡ y = bytes_eq→eq t y e in rw e (rw same (k.0, k.1))
  | inr f ↦ rw f (let less = strict t y h.0 f in ((less, All-Less-trans t y ys less k.0), k))
]
  where
    strict : (a b : Text) → AtMost a b → bytes_eq a b ≡ false → Less a b
    strict a b le ne = elim (Bool-cases (text_lt a b)) [
      | inl l ↦ l
      | inr g ↦ absurd (ground (arith, text_lt_total a b g le, bytes_eq_refl a))
    ]

All-drop_equal :
    (P : Text → Type 0) (t : Text) (ts : List Text) → All P ts → All P (drop_equal t ts)
unfolding drop_equal
All-drop_equal P t [] h = tt
All-drop_equal P t (y ∷ ys) h = elim (Bool-cases (bytes_eq t y)) [
  | inl e ↦ rw e h.1
  | inr f ↦ rw f h
]

All-dedup : (P : Text → Type 0) (ts : List Text) → All P ts → All P (dedup ts)
unfolding dedup
All-dedup P [] h = tt
All-dedup P (t ∷ ts) h = (h.0, All-drop_equal P t (dedup ts) (All-dedup P ts h.1))

dedup-Ordered : (ts : List Text) → Ordered AtMost ts → Ordered Less (dedup ts)
unfolding dedup
dedup-Ordered [] h = tt
dedup-Ordered (t ∷ ts) h =
    drop_equal-Ordered t (dedup ts) (All-dedup (AtMost t) ts h.0) (dedup-Ordered ts h.1)

contains-place :
    (t x : Text) (xs : List Text) → contains (place x xs) t ≡ (bytes_eq x t || contains xs t)
unfolding place
contains-place t x [] = refl
contains-place t x (y ∷ ys) = elim (Bool-cases (text_lt y x)) [
  | inl l ↦ rw l (ground (arith, contains-place t x ys))
  | inr f ↦ rw f refl
]

contains-sort_texts : (t : Text) (ts : List Text) → contains (sort_texts ts) t ≡ contains ts t
unfolding sort_texts
contains-sort_texts t [] = refl
contains-sort_texts t (x ∷ xs) =
    contains-place t x (sort_texts xs) ∙ rw (contains-sort_texts t xs) refl

contains-drop_equal :
    (t x : Text) (xs : List Text)
    → contains (x ∷ drop_equal x xs) t ≡ (bytes_eq x t || contains xs t)
unfolding drop_equal
contains-drop_equal t x [] = refl
contains-drop_equal t x (y ∷ ys) = elim (Bool-cases (bytes_eq x y)) [
  | inl e ↦
      let same : x ≡ y = bytes_eq→eq x y e in rw e (rw same (twice (bytes_eq y t) (contains ys t)))
  | inr f ↦ rw f refl
]
  where
    twice : (a b : Bool) → (a || b) ≡ (a || (a || b))
    twice true b = refl
    twice false b = refl

contains-dedup : (t : Text) (ts : List Text) → contains (dedup ts) t ≡ contains ts t
unfolding dedup
contains-dedup t [] = refl
contains-dedup t (x ∷ xs) = contains-drop_equal t x (dedup xs) ∙ rw (contains-dedup t xs) refl

-- The cameras of an index stand in strictly ascending order, so each once, and they are exactly those
-- that have a segment in the index.
pub cameras-sorted :
    (ix : SegmentIndex) (t : Text)
    → Ordered Less (cameras ix)
      × (contains (cameras ix) t ≡ contains (map (λ m. m.camera_id) (all_segments ix)) t)
unfolding cameras
cameras-sorted ix t =
    let ids = map (λ m. m.camera_id) (all_segments ix) in
    (
      dedup-Ordered (sort_texts ids) (sort_texts-Ordered ids),
      contains-dedup t (sort_texts ids) ∙ contains-sort_texts t ids,
    )
