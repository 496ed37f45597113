-- ===== src/Storage/ChunkPool/Ring/Retains.antt =====
-- How long the ring keeps a segment.
use oasis_nvr.Prelude.{
  ℕ, suc, ◌+◌, ◌%◌, ◌<◌, ◌≡◌, ◌≢◌, ◌⊎◌, inl, inr, sym, Bool, true, ◌&&◌, not, List, [], ◌∷◌, arith,
  ltb, ltb→lt, ltb-false→le, if◌then◌else◌, Bool-cases,
}
use native.Mathlib.Nat.{mod-eq_of_lt, mod_self}
use oasis_nvr.Storage.ChunkPool.Types.{SegmentLocation}
use oasis_nvr.Storage.ChunkPool.Record.{Segment, record_size}
use oasis_nvr.Storage.ChunkPool.Record.Scan.{total_size}
use oasis_nvr.Storage.ChunkPool.Ring.{Ring, IsIn, ring_append}
use oasis_nvr.Storage.ChunkPool.Ring.Changes.{put_view-cases, IsIn-snoc}
use oasis_nvr.Storage.ChunkPool.Ring.Refines.{
  ring_append-stay, ring_append-advance, ring_append-too_large,
}

-- Whether storing the segment takes the next pool.
abbrev pub takes_next : ℕ → Ring → Segment → Bool
takes_next capacity r seg =
    not (ltb capacity (record_size seg))
    && ltb capacity (total_size (r.view r.current).segments + record_size seg)

abbrev pub one_if : Bool → ℕ
one_if b = if b then 1 else 0

-- How often storing these segments takes the next pool.
abbrev pub advances : ℕ → ℕ → Ring → List Segment → ℕ
advances n capacity r [] = 0
advances n capacity r (seg ∷ segs) =
    one_if (takes_next capacity r seg) + advances n capacity (ring_append n capacity r seg) segs

-- The current pool is `d` places behind pool `i` on a ring of `n`.
abbrev pub Behind : ℕ → ℕ → ℕ → ℕ → Type 0
Behind n i c d = (c < n) × ((c ≡ i + d) ⊎ (c + n ≡ i + d))

next_place :
    (c n : ℕ) → c < n → (((c + 1) % n ≡ c + 1) × (c + 1 < n)) ⊎ (((c + 1) % n ≡ 0) × (c + 1 ≡ n))
next_place c n lt = elim (Bool-cases (ltb (c + 1) n)) [
  | inl t ↦ let small = ltb→lt (c + 1) n t in inl (mod-eq_of_lt small, small)
  | inr f ↦
      let e : c + 1 ≡ n = omega (arith, ltb-false→le (c + 1) n f) in inr (rw e (mod_self n), e)
]

next-Behind :
    (n i c d : ℕ)
    → i < n
    → suc d < n
    → Behind n i c d
    → Behind n i ((c + 1) % n) (suc d) × ((c + 1) % n ≢ i)
next-Behind n i c d lt small (inside, b) = elim (next_place c n inside) [
  | inl (e, room) ↦ rw e (elim b [
    | inl q ↦ ((room, inl (omega arith)), λ z. omega arith)
    | inr q ↦ ((room, inr (omega arith)), λ z. omega arith)
  ])
  | inr (e, full) ↦ rw e (elim b [
    | inl q ↦ ((omega arith, inr (omega arith)), λ z. omega arith)
    | inr q ↦ ((omega arith, inl (omega arith)), λ z. omega arith)
  ])
]

-- A segment in a pool that is not taken stays where it is.
pub step-IsIn :
    (n capacity : ℕ) (x : Segment) (r : Ring) (loc : SegmentLocation) (seg : Segment) (d : ℕ)
    → loc.pool_idx < n
    → Behind n loc.pool_idx r.current d
    → d + one_if (takes_next capacity r x) < n
    → IsIn (r.view loc.pool_idx) loc seg
    → Behind n loc.pool_idx
        (ring_append n capacity r x).current
        (d + one_if (takes_next capacity r x))
      × IsIn ((ring_append n capacity r x).view loc.pool_idx) loc seg
step-IsIn n capacity x r loc seg d lt b few h = elim (Bool-cases (ltb capacity (record_size x))) [
  | inl large ↦ rw (ring_append-too_large n capacity r x (ltb→lt _ _ large), large, add_zero) (b, h)
  | inr small ↦ elim (Bool-cases full) [
    | inl t ↦
        let here : d + 1 < n = rw (small, t) at few in
        let next : suc d < n = omega arith in
        let (b', ne) = next-Behind n loc.pool_idx r.current d lt next b in
        rw
          (
            ring_append-advance n capacity r x (ltb-false→le _ _ small) (ltb→lt _ _ t),
            small,
            t,
            add_one,
          )
          (
            b',
            put_view-cases (λ v. IsIn v loc seg) r.view ((r.current + 1) % n) loc.pool_idx _
                (λ e. absurd (ne e)) (λ e. h),
          )
    | inr f ↦
        rw (ring_append-stay n capacity r x (ltb-false→le _ _ f), small, f, add_zero)
          (
            b,
            put_view-cases (λ v. IsIn v loc seg) r.view r.current loc.pool_idx _
                (λ e. rw e (IsIn-snoc (r.view loc.pool_idx) loc seg x h)) (λ e. h),
          )
  ]
]
  where
    full : Bool
    full = ltb capacity (total_size (r.view r.current).segments + record_size x)

    add_zero : d + 0 ≡ d
    add_zero = omega arith

    add_one : d + 1 ≡ suc d
    add_one = omega arith

-- The pool that is taken is another one.
pub taken-ne :
    (n capacity : ℕ) (x : Segment) (r : Ring) (i d : ℕ)
    → i < n
    → Behind n i r.current d
    → d + one_if (takes_next capacity r x) < n
    → takes_next capacity r x ≡ true
    → i ≢ (r.current + 1) % n
taken-ne n capacity x r i d lt b few t e =
    let here : d + 1 < n = rw t at few in
    let next : suc d < n = omega arith in (next-Behind n i r.current d lt next b).1 (sym e)
