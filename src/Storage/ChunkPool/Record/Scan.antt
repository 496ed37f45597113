-- ===== src/Storage/ChunkPool/Record/Scan.antt =====
-- The whole loop of `scan_records` on segments that lie one behind another in a pool file.
use oasis_nvr.Prelude.{
  ℕ, zero, suc, ◌+◌, ◌^◌, ◌≤◌, ◌<◌, ◌≡◌, refl, ◌∙◌, List, [], ◌∷◌, ◌++◌, arith, length,
  length-append, take, drop-append_length, add64, bytes_eq→eq, All, inl, inr, ◌≢◌, append-nil,
}
use oasis_nvr.Storage.ChunkPool.Record.Fuel.{scan_from-fuel}
use native.Mathlib.Nat.{add-zero, add_assoc}
use oasis_nvr.Chrono.{Time, Chrono}
use oasis_nvr.Outcome.{Result, ok, err, panic, ◌>>=◌}
use oasis_nvr.Storage.ChunkPool.Types.{ScannedRecord, record_magic}
use oasis_nvr.Storage.ChunkPool.Record.{
  Segment, record_size, read_exact, encode_record, scan_round, scan_from, scan_records,
}
use oasis_nvr.Prelude.Cases.{Option-cases}
use oasis_nvr.Storage.ChunkPool.Record.RoundTrip.{
  IsStorable, recovered, length-encode_record, scan_from-suc, scan_round-encode_record,
  read_exact-take,
}

-- Segments written one behind another, with `tail` behind the last.
abbrev pub layout : Chrono → List Segment → List ℕ → List ℕ
layout ch [] tail = tail
layout ch (s ∷ ss) tail = encode_record ch s ++ layout ch ss tail

-- The bytes that the records of these segments take.
abbrev pub total_size : List Segment → ℕ
total_size [] = 0
total_size (s ∷ ss) = record_size s + total_size ss

-- What the scan reports of them, from `offset` on.
abbrev pub recovered_all : ℕ → ℕ → ℕ → List Segment → List ScannedRecord
recovered_all pool_idx pool_id offset [] = []
recovered_all pool_idx pool_id offset (s ∷ ss) =
    recovered pool_idx pool_id offset s ∷ recovered_all pool_idx pool_id (offset + record_size s) ss

>>=-assoc {ℓ} :
    {A : Type ℓ} (r : Result (List A)) (x : A) (f : List A → List A)
    → (r >>= (λ recs. ok (f recs)) >>= λ recs. ok (x ∷ recs)) ≡ (r >>= λ recs. ok (x ∷ f recs))
>>=-assoc (ok a) x f = refl
>>=-assoc (err e) x f = refl
>>=-assoc panic x f = refl

>>=-ok {ℓ} : {A : Type ℓ} (r : Result A) → (r >>= λ a. ok a) ≡ r
>>=-ok (ok a) = refl
>>=-ok (err e) = refl
>>=-ok panic = refl

module _ (ch : Chrono) (clock : ℕ → Time) (pool_idx pool_id limit : ℕ) where
  -- The scan reports the segments in the order in which they lie, then what it finds behind them.
  pub scan_from-layout :
      (ss : List Segment) (offset fuel : ℕ) (tail : List ℕ)
      → All (IsStorable ch) ss
      → offset + total_size ss ≤ limit
      → limit < 2 ^ 64
      → length (layout ch ss tail) ≤ fuel
      → scan_from ch clock pool_idx pool_id limit fuel offset (layout ch ss tail) ≡ (
          scan_from ch clock pool_idx pool_id limit (length tail) (offset + total_size ss) tail
          >>= λ recs. ok (recovered_all pool_idx pool_id offset ss ++ recs))
  scan_from-layout [] offset fuel tail fit h hl hf = rw (
    scan_from-fuel ch clock pool_idx pool_id limit fuel (length tail) offset tail hf (omega arith),
    add-zero,
    >>=-ok,
  )
  scan_from-layout (s ∷ ss) offset zero tail fit h hl hf = absurd (
      omega
        (arith, length-append (encode_record ch s) (layout ch ss tail), length-encode_record ch s))
  scan_from-layout (s ∷ ss) offset (suc fuel) tail fit h hl hf =
      scan_from-suc ch clock pool_idx pool_id limit fuel offset (layout ch (s ∷ ss) tail)
      ∙ rw
          (
            scan_round-encode_record ch clock pool_idx pool_id limit _ offset s (layout ch ss tail)
                fit.0 (omega arith) hl,
            scan_from-layout ss (offset + record_size s) fuel tail fit.1 (omega arith) hl (
                omega (
                  arith,
                  length-append (encode_record ch s) (layout ch ss tail),
                  length-encode_record ch s,
                )),
            add_assoc,
          )
          (>>=-assoc _ _ _)

  -- Where no magic stands, the scan ends.
  scan_from-no_magic :
      (fuel offset : ℕ) (tail : List ℕ)
      → take 4 tail ≢ record_magic
      → scan_from ch clock pool_idx pool_id limit fuel offset tail ≡ ok []
  unfolding scan_from scan_round
  scan_from-no_magic zero offset tail h = refl
  scan_from-no_magic (suc fuel) offset tail h = elim (Option-cases (read_exact 4 tail)) [
    | inl e ↦ ground arith
    | inr ((magic, r), e) ↦
        ground (arith, bytes_eq→eq magic record_magic, read_exact-take 4 tail magic r e, h)
  ]

module _ (ch : Chrono) (clock : ℕ → Time) (pool_idx pool_id cap : ℕ) where
  scan_records_header :
      (header body : List ℕ)
      → length header ≡ 64
      → 64 + cap < 2 ^ 64
      → scan_records ch clock pool_idx pool_id cap (header ++ body)
        ≡ scan_from ch clock pool_idx pool_id (64 + cap) (length body) 64 body
  unfolding scan_records
  scan_records_header header body e h =
      let sum : add64 64 cap ≡ 64 + cap = omega arith in
      rw (sum, rw e at (drop-append_length header body))

  -- The segments that lie in a pool file are reported, and nothing else, if no magic follows them.
  pub scan_records-layout :
      (header : List ℕ) (ss : List Segment) (tail : List ℕ)
      → length header ≡ 64
      → 64 + cap < 2 ^ 64
      → All (IsStorable ch) ss
      → total_size ss ≤ cap
      → take 4 tail ≢ record_magic
      → scan_records ch clock pool_idx pool_id cap (header ++ layout ch ss tail)
        ≡ ok (recovered_all pool_idx pool_id 64 ss)
  scan_records-layout header ss tail e hc fit h no_magic =
      scan_records_header header (layout ch ss tail) e hc
      ∙ scan_from-layout ch clock pool_idx pool_id (64 + cap) ss 64 _ tail fit (omega arith)
          (omega arith) (omega arith)
      ∙ rw (
        scan_from-no_magic ch clock pool_idx pool_id (64 + cap) (length tail) (64 + total_size ss)
            tail no_magic,
        append-nil,
      )
