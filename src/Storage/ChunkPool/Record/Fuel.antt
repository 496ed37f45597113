-- ===== src/Storage/ChunkPool/Record/Fuel.antt =====
-- The loop of `scan_records` ends: each round shortens what is left of the file, so more fuel than
-- its length changes nothing.
use oasis_nvr.Prelude.{
  ℕ, zero, suc, ◌+◌, ◌≤◌, ◌≡◌, refl, sym, min, Option, none, some, List, [], ◌∷◌, inl, inr, arith,
  length, length-drop, Bool-cases, ltb, bytes_eq, drop, add64,
}
use oasis_nvr.Prelude.Cases.{Option-cases}
use oasis_nvr.Chrono.{Time, Chrono}
use oasis_nvr.Outcome.{Result, ok, err, panic, ◌>>=◌}
use oasis_nvr.Storage.ChunkPool.Types.{ScannedRecord, record_magic, record_header_size}
use oasis_nvr.Storage.ChunkPool.Record.{read_exact, read_record, scan_on, scan_round, scan_from}

pub length-read_exact :
    (n : ℕ) (xs got rest : List ℕ)
    → read_exact n xs ≡ some (got, rest)
    → length xs ≡ n + length rest
unfolding read_exact
length-read_exact zero xs got rest e = ground arith
length-read_exact (suc n) [] got rest e = cc
length-read_exact (suc n) (x ∷ xs) got rest e = elim (Option-cases (read_exact n xs)) [
  | inl h ↦ ground arith
  | inr ((a, r), h) ↦ ground (arith, length-read_exact n xs a r h)
]

module _ (ch : Chrono) (clock : ℕ → Time) (pool_idx pool_id limit : ℕ) where
  pub length-read_record :
      (offset : ℕ) (file : List ℕ) {rec : ScannedRecord} {rest : List ℕ} {n : ℕ}
      → read_record ch clock pool_idx pool_id limit offset file ≡ ok (some (rec, rest, n))
      → length file ≡ 36 + length rest
  unfolding read_record
  length-read_record offset file {rest} h = elim (Option-cases (read_exact 16 file)) [
    | inl e1 ↦ ground arith
    | inr ((a1, r1), e1) ↦ elim (Option-cases (read_exact 8 r1)) [
      | inl e2 ↦ ground arith
      | inr ((a2, r2), e2) ↦ elim (Option-cases (read_exact 8 r2)) [
        | inl e3 ↦ ground arith
        | inr ((a3, r3), e3) ↦ elim (Option-cases (read_exact 4 r3)) [
          | inl e4 ↦ ground arith
          | inr ((a4, r4), e4) ↦ ground (
            arith,
            length-read_exact 16 file a1 r1 e1,
            length-read_exact 8 r1 a2 r2 e2,
            length-read_exact 8 r2 a3 r3 e3,
            length-read_exact 4 r3 a4 r4 e4,
          )
        ]
      ]
    ]
  ]

  scan_on-congr :
      (f g : ℕ → List ℕ → Result (List ScannedRecord)) (offset bound : ℕ)
      → ((o : ℕ) (xs : List ℕ) → length xs ≤ bound → f o xs ≡ g o xs)
      → (r : List ℕ) (found : Result (Option (ScannedRecord × List ℕ × ℕ)))
      → read_record ch clock pool_idx pool_id limit offset r ≡ found
      → length r ≤ bound
      → (found >>= scan_on ch clock pool_idx pool_id limit f offset)
        ≡ (found >>= scan_on ch clock pool_idx pool_id limit g offset)
  unfolding scan_on
  scan_on-congr f g offset bound same r (ok none) e h = refl
  scan_on-congr f g offset bound same r (ok (some (rec, rest, n))) e h = rw (
      same (add64 offset rec.record_size) (drop n rest)
        (omega (arith, length-read_record offset r e, length-drop n rest)))
  scan_on-congr f g offset bound same r (err x) e h = refl
  scan_on-congr f g offset bound same r panic e h = refl

  -- A round looks at the rest of the loop only on a shorter file.
  scan_round-congr :
      (f g : ℕ → List ℕ → Result (List ScannedRecord)) (offset bound : ℕ) (file : List ℕ)
      → ((o : ℕ) (xs : List ℕ) → length xs ≤ bound → f o xs ≡ g o xs)
      → length file ≤ suc bound
      → scan_round ch clock pool_idx pool_id limit f offset file
        ≡ scan_round ch clock pool_idx pool_id limit g offset file
  unfolding scan_round
  scan_round-congr f g offset bound file same h =
      elim (Bool-cases (ltb limit (add64 offset record_header_size))) [
        | inl e ↦ rw e
        | inr e ↦ rw e (elim (Option-cases (read_exact 4 file)) [
          | inl e1 ↦ rw e1
          | inr ((magic, r), e1) ↦ rw e1 (elim (Bool-cases (bytes_eq magic record_magic)) [
            | inr e2 ↦ rw e2
            | inl e2 ↦ rw e2 (
                scan_on-congr f g offset bound same r _ refl
                  (omega (arith, length-read_exact 4 file magic r e1)))
          ])
        ])
      ]

  scan_round-nil :
      (f : ℕ → List ℕ → Result (List ScannedRecord)) (offset : ℕ)
      → scan_round ch clock pool_idx pool_id limit f offset [] ≡ ok []
  unfolding scan_round read_exact
  scan_round-nil f offset = ground arith

  -- Fuel beyond the length of what is left of the file changes nothing.
  pub scan_from-fuel :
      (f g offset : ℕ) (file : List ℕ)
      → length file ≤ f
      → length file ≤ g
      → scan_from ch clock pool_idx pool_id limit f offset file
        ≡ scan_from ch clock pool_idx pool_id limit g offset file
  unfolding scan_from
  scan_from-fuel zero zero offset file hf hg = refl
  scan_from-fuel zero (suc g) offset [] hf hg = sym (scan_round-nil _ offset)
  scan_from-fuel zero (suc g) offset (x ∷ xs) hf hg = elim hf [ ]
  scan_from-fuel (suc f) zero offset [] hf hg = scan_round-nil _ offset
  scan_from-fuel (suc f) zero offset (x ∷ xs) hf hg = elim hg [ ]
  scan_from-fuel (suc f) (suc g) offset file hf hg =
      scan_round-congr _ _ offset (min f g) file
        (λ o xs h. scan_from-fuel f g o xs (omega arith) (omega arith)) (omega arith)
